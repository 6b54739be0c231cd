-- ===== src/Executor/Remote/Kept.antt =====
-- pkg/executor/runtime.go: runtimePayload adds to the input and overwrites nothing.
use execgo.Base.{
  String, ◌≡◌, refl, sym, ap, ◌∙◌, subst, ◌≢◌, inl, inr, Bool, true, false, not, Option, none, some,
  [], ◌∷◌, if◌then◌else◌, ◌==◌, Bool-cases, text_cases, eq_iff, arith,
}
use execgo.Base.Dict.{Dict, lookup, lookup-insert_same, lookup-insert_other}
use execgo.Models.Runtime.{Raw}
use execgo.Models.Task.{Task}
use execgo.Adapter.Json.{Json, str, obj, Fields, no_fields, field, fields, to_fields}
use execgo.Executor.Remote.{RuntimeExecutor, Outside}
use execgo.Executor.Remote.Payload.{
  payload_ready, raw_input, fill_missing, fill_key, fill_text, control_context, with_identity,
  has_identity, with_context, fill_task_id, encode_map, payload_of_value, payload_of_raw,
  submit_payload,
}

-- Every key of the first map is in the second, with its value.
abbrev pub Extends : Dict Json → Dict Json → Type 0
Extends m n = (k : String) (v : Json) → lookup k m ≡ some v → lookup k n ≡ some v

missing-Extends :
    (key : String) (v : Json) (o : Option Json) (m : Dict Json)
    → lookup key m ≡ o
    → Extends m (fill_missing key v o m)
missing-Extends key v (some w) m e k x h = h
missing-Extends key v none m e k x h =
    lookup-insert_other key k v m (λ p. absurd (cc (sym (subst (λ y. lookup y m ≡ none) p e) ∙ h)))
    ∙ h

fill_key-Extends : (key : String) (v : Json) (m : Dict Json) → Extends m (fill_key key v m)
unfolding fill_key
fill_key-Extends key v m = missing-Extends key v (lookup key m) m refl

if-Extends : (b : Bool) (m n : Dict Json) → Extends m n → Extends m (if b then n else m)
if-Extends true m n h = h
if-Extends false m n h = λ k v e. e

fill_text-Extends : (key text : String) (m : Dict Json) → Extends m (fill_text key text m)
unfolding fill_text
fill_text-Extends key text m = if-Extends (not (text == "")) m _ (fill_key-Extends key (str text) m)

-- What is there afterwards under a key that is filled.
missing_present :
    (key : String) (v : Json) (o : Option Json) (m : Dict Json)
    → lookup key m ≡ o
    → (w : Json) × (lookup key (fill_missing key v o m) ≡ some w)
missing_present key v (some w) m e = (w, e)
missing_present key v none m e = (v, lookup-insert_same key v m)

fill_text_present :
    (key text : String) (m : Dict Json)
    → text ≢ ""
    → (w : Json) × (lookup key (fill_text key text m) ≡ some w)
unfolding fill_text fill_key
fill_text_present key text m n = elim (text_cases text "") [
  | inl (e, _) ↦ absurd (n e)
  | inr (_, t) ↦ rw (t, fill_text) (missing_present key (str text) (lookup key m) m refl)
]

to_fields-fields : (fs : Fields) → to_fields (fields fs) ≡ fs
to_fields-fields no_fields = refl
to_fields-fields (field k v fs) = ap (field k v) (to_fields-fields fs)

-- The payload `m` of the input object `fs`.
pub record IsCompleted (e : RuntimeExecutor) (fs m : Dict Json) : Type 0 where
  pub rest : (k : String) → "task_id" ≢ k → "control_context" ≢ k → lookup k m ≡ lookup k fs
  pub id_kept : (v : Json) → lookup "task_id" fs ≡ some v → lookup "task_id" m ≡ some v
  pub context :
      (gs : Fields)
      → lookup "control_context" fs ≡ some (obj gs)
      → (hs : Dict Json) × (lookup "control_context" m ≡ some (obj (to_fields hs)))
        × Extends (fields gs) hs
  pub tenant :
      e.tenant ≢ ""
      → (hs : Dict Json) × (w : Json) × (lookup "control_context" m ≡ some (obj (to_fields hs)))
        × (lookup "tenant" hs ≡ some w)

identity-IsCompleted : (e : RuntimeExecutor) (m : Dict Json) → IsCompleted e m (with_identity e m)
unfolding with_identity
identity-IsCompleted e m =
    let cc_ = control_context (lookup "control_context" m) in
    let with_tenant = fill_text "tenant" e.tenant cc_ in
    let hs = fill_text "owner" e.owner with_tenant in
    record {
      rest = λ k n c. lookup-insert_other "control_context" k _ m c;
      id_kept = λ v h. lookup-insert_other "control_context" "task_id" _ m (λ x. cc) ∙ h;
      context = λ gs h. (
        hs,
        lookup-insert_same "control_context" (obj (to_fields hs)) m,
        λ k v x. fill_text-Extends "owner" e.owner with_tenant k v (
            fill_text-Extends "tenant" e.tenant cc_ k v
              (subst (λ o. lookup k (control_context o) ≡ some v) (sym h) x)),
      );
      tenant = λ n.
          let (w, present) = fill_text_present "tenant" e.tenant cc_ n in
          (
            hs,
            w,
            lookup-insert_same "control_context" (obj (to_fields hs)) m,
            fill_text-Extends "owner" e.owner with_tenant "tenant" w present,
          );
    }

plain-IsCompleted : (e : RuntimeExecutor) (m : Dict Json) → e.tenant ≡ "" → IsCompleted e m m
plain-IsCompleted e m t = record {
  rest = λ k n c. refl;
  id_kept = λ v h. h;
  context = λ gs h. (fields gs, h ∙ ap (λ x. some (obj x)) (sym (to_fields-fields gs)), λ k v x. x);
  tenant = λ n. absurd (n t);
}

no_tenant : (e : RuntimeExecutor) → has_identity e ≡ false → e.tenant ≡ ""
unfolding has_identity
no_tenant e f = ground (arith, eq_iff e.tenant "")

context-IsCompleted : (e : RuntimeExecutor) (m : Dict Json) → IsCompleted e m (with_context e m)
unfolding with_context
context-IsCompleted e m = elim (Bool-cases (has_identity e)) [
  | inl t ↦ rw (t, with_context) (identity-IsCompleted e m)
  | inr f ↦ rw (f, with_context) (plain-IsCompleted e m (no_tenant e f))
]

missing_other :
    (key k : String) (v : Json) (o : Option Json) (m : Dict Json)
    → key ≢ k
    → lookup k (fill_missing key v o m) ≡ lookup k m
missing_other key k v none m n = lookup-insert_other key k v m n
missing_other key k v (some w) m n = refl

if_other :
    (b : Bool) (m n : Dict Json) (k : String)
    → lookup k n ≡ lookup k m
    → lookup k (if b then n else m) ≡ lookup k m
if_other true m n k e = e
if_other false m n k e = refl

-- Under the keys but "task_id" the first map is the second.
id_rest :
    (out : Outside) (t : Task) (m : Dict Json) (k : String)
    → "task_id" ≢ k
    → lookup k (fill_task_id out t m) ≡ lookup k m
unfolding fill_task_id fill_key
id_rest out t m k n =
    if_other (not (out.trim_space t.id == "")) m _ k
      (missing_other "task_id" k (str t.id) (lookup "task_id" m) m n)

fill_task_id-Extends : (out : Outside) (t : Task) (m : Dict Json) → Extends m (fill_task_id out t m)
unfolding fill_task_id
fill_task_id-Extends out t m =
    if-Extends (not (out.trim_space t.id == "")) m _ (fill_key-Extends "task_id" (str t.id) m)

payload_of_object :
    (out : Outside) (e : RuntimeExecutor) (t : Task) (fs : Fields) (raw : Raw)
    → raw ≢ []
    → out.decode raw ≡ some (obj fs)
    → payload_of_raw out e t raw ≡ encode_map out e t (fields fs)
payload_of_object out e t fs [] n d = absurd (n refl)
payload_of_object out e t fs (b ∷ bs) n d = ap (payload_of_value out e t (b ∷ bs)) d

-- When the input of a task is not empty and decodes to an object: runtimePayload encodes a map
-- that has every key of the object but task_id and control_context as it was, the task_id of the
-- object if there was one, every key of the control context of the object, and a tenant there if
-- the executor has one.
pub submit_payload-IsCompleted :
    (out : Outside) (e : RuntimeExecutor) (t : Task) (fs : Fields)
    → raw_input t.input t.params ≢ []
    → out.decode (raw_input t.input t.params) ≡ some (obj fs)
    → (m : Dict Json) × (submit_payload out e t ≡ payload_ready (out.encode (obj (to_fields m))))
      × IsCompleted e (fields fs) m
unfolding submit_payload encode_map
submit_payload-IsCompleted out e t fs n d =
    let named = fill_task_id out t (fields fs) in
    let c = context-IsCompleted e named in
    (
      with_context e named,
      payload_of_object out e t fs (raw_input t.input t.params) n d,
      record {
        rest = λ k a b. c.rest k a b ∙ id_rest out t (fields fs) k a;
        id_kept = λ v h. c.id_kept v (fill_task_id-Extends out t (fields fs) "task_id" v h);
        context = λ gs h. c.context gs (id_rest out t (fields fs) "control_context" (λ x. cc) ∙ h);
        tenant = c.tenant;
      },
    )
