-- ===== src/Adapter/Payload/Runtime.antt =====
-- pkg/adapter/adapter.go: what the payload of a runtime task holds.
use execgo.Base.{
  String, ◌≡◌, refl, sym, ap, ◌∙◌, subst, ◌≢◌, inl, inr, false, Option, none, some, List, [], ◌∷◌,
  text_cases, has, has_iff, In, All-In, IsDistinct, ok, ok_injective, absurd_ok, bind_ok,
}
use execgo.Base.Dict.{Dict, lookup, lookup-insert_same, lookup-insert_other}
use execgo.Models.Runtime.{Raw}
use execgo.Adapter.Json.{Json, str, obj, to_fields}
use execgo.Adapter.Request.{AgentActionRequest, marshal_failed, Std, raw_object}
use execgo.Adapter.Payload.{
  insert_some, env_json, runtime_metadata, forward_keys, payload_of, marshalled, marshal,
  runtime_task_id, runtime_payload, chosen_execution,
}

insert_some_other :
    (k j : String) (v : Option Json) (m : Dict Json)
    → k ≢ j
    → lookup j (insert_some k v m) ≡ lookup j m
unfolding insert_some
insert_some_other k j none m n = refl
insert_some_other k j (some v) m n = lookup-insert_other k j v m n

forward_other :
    (ks : List String) (in_ m : Dict Json) (j : String)
    → ¬ In j ks
    → lookup j (forward_keys ks in_ m) ≡ lookup j m
unfolding forward_keys
forward_other [] in_ m j n = refl
forward_other (k ∷ ks) in_ m j n =
    forward_other ks in_ (insert_some k (lookup k in_) m) j (λ i. n (inr i))
    ∙ insert_some_other k j (lookup k in_) m (λ e. n (inl (sym e)))

insert_some_same :
    (k : String) (v : Option Json) (m : Dict Json)
    → lookup k m ≡ none
    → lookup k (insert_some k v m) ≡ v
unfolding insert_some
insert_some_same k none m n = n
insert_some_same k (some v) m n = lookup-insert_same k v m

forwarded :
    (ks : List String) (in_ m : Dict Json) (j : String)
    → In j ks
    → IsDistinct ks
    → lookup j m ≡ none
    → lookup j (forward_keys ks in_ m) ≡ lookup j in_
unfolding forward_keys
forwarded [] in_ m j i d n = absurd i
forwarded (k ∷ ks) in_ m j i d n = elim (text_cases k j) [
  | inl (e, _) ↦
      forward_other ks in_ (insert_some k (lookup k in_) m) j (subst (λ x. ¬ In x ks) e d.0)
      ∙ subst (λ x. lookup x (insert_some k (lookup k in_) m) ≡ lookup x in_) e
          (insert_some_same k (lookup k in_) m (subst (λ x. lookup x m ≡ none) (sym e) n))
  | inr (ne, _) ↦
      forwarded ks in_ (insert_some k (lookup k in_) m) j
        (elim i [ inl e ↦ absurd (ne (sym e)) | inr h ↦ h ]) d.1
        (insert_some_other k j (lookup k in_) m ne ∙ n)
]

abbrev forwarded_keys : List String
forwarded_keys = "limits" ∷ "sandbox" ∷ "policy" ∷ "control_context" ∷ []

outsider : (j : String) (ks : List String) → has j ks ≡ false → ¬ In j ks
outsider j ks e m = absurd (cc (sym ((has_iff j ks).1 m) ∙ e))

forwarded_keys-IsDistinct : IsDistinct forwarded_keys
unfolding has
forwarded_keys-IsDistinct = (
  outsider "limits" ("sandbox" ∷ "policy" ∷ "control_context" ∷ []) refl,
  (
    outsider "sandbox" ("policy" ∷ "control_context" ∷ []) refl,
    (outsider "policy" ("control_context" ∷ []) refl, ((λ m. m), tt)),
  ),
)

-- What the payload `p` of a runtime task with the id `id` holds.
pub record IsPayload (std : Std) (req : AgentActionRequest) (kind id : String) (p : Dict Json)
    : Type 0 where
  pub input : Dict Json
  pub execution : Dict Json
  pub parsed : raw_object std req.action.input ≡ ok input
  pub chosen : chosen_execution std input kind ≡ ok execution
  pub id_stamp : lookup "task_id" p ≡ some (str id)
  pub execution_stamp : lookup "execution" p ≡ some (obj (to_fields execution))
  pub as_is : (k : String) → In k forwarded_keys → lookup k p ≡ lookup k input
  pub metadata : lookup "metadata" p ≡ env_json (runtime_metadata std req kind input)

payload_of-IsPayload :
    (std : Std) (req : AgentActionRequest) (kind : String) (in_ execution : Dict Json)
    → raw_object std req.action.input ≡ ok in_
    → chosen_execution std in_ kind ≡ ok execution
    → IsPayload std req kind (runtime_task_id std req in_) (payload_of std req kind in_ execution)
unfolding payload_of has
payload_of-IsPayload std req kind in_ execution e f =
    let base : Dict Json =
      ("task_id", str (runtime_task_id std req in_))
      ∷ ("execution", obj (to_fields execution))
      ∷ [] in
    let outside : (j : String)
        → "metadata" ≢ j
        → ¬ In j forwarded_keys
        → lookup j (payload_of std req kind in_ execution) ≡ lookup j base =
      λ j n m. insert_some_other "metadata" j _ _ n ∙ forward_other forwarded_keys in_ base j m in
    record {
      input = in_;
      execution = execution;
      parsed = e;
      chosen = f;
      id_stamp = outside "task_id" (λ x. cc) (outsider "task_id" forwarded_keys refl);
      execution_stamp = outside "execution" (λ x. cc) (outsider "execution" forwarded_keys refl);
      as_is = λ k m.
          insert_some_other "metadata" k _ _ (λ n.
            outsider "metadata" forwarded_keys refl (subst (λ x. In x forwarded_keys) (sym n) m))
          ∙ forwarded forwarded_keys in_ base k m forwarded_keys-IsDistinct (
              All-In (λ x. lookup x base ≡ none) k forwarded_keys (refl, (refl, (refl, (refl, tt))))
                m);
      metadata = insert_some_same "metadata" (env_json (runtime_metadata std req kind in_)) _ (
          forward_other forwarded_keys in_ base "metadata"
            (outsider "metadata" forwarded_keys refl));
    }

marshalled_ok : (o : Option Raw) (raw : Raw) → marshalled o ≡ ok raw → o ≡ some raw
marshalled_ok none raw e = absurd (absurd_ok marshal_failed raw e)
marshalled_ok (some x) raw e = ap some (ok_injective x raw e)

pub marshal_ok :
    (std : Std) (m : Dict Json) (raw : Raw)
    → marshal std m ≡ ok raw
    → std.encode (obj (to_fields m)) ≡ some raw
unfolding marshal
marshal_ok std m raw e = marshalled_ok (std.encode (obj (to_fields m))) raw e

-- When runtimePayload returns a text and an id: the text encodes an object that has the id under
-- task_id, the chosen execution under execution, what the input has under limits, sandbox, policy
-- and control_context, and the merged metadata, where there is any.
pub runtime_payload-IsPayload :
    (std : Std) (req : AgentActionRequest) (kind : String) (raw : Raw) (id : String)
    → runtime_payload std req kind ≡ ok (raw, id)
    → (p : Dict Json) × (std.encode (obj (to_fields p)) ≡ some raw) × IsPayload std req kind id p
unfolding runtime_payload
runtime_payload-IsPayload std req kind raw id e =
    let (in_, a, e₁) = bind_ok (raw_object std req.action.input) _ (raw, id) e in
    let (execution, b, e₂) = bind_ok (chosen_execution std in_ kind) _ (raw, id) e₁ in
    let (data_, c, e₃) =
      bind_ok (marshal std (payload_of std req kind in_ execution)) _ (raw, id) e₂ in
    let same = ok_injective (data_, runtime_task_id std req in_) (raw, id) e₃ in
    let p = payload_of std req kind in_ execution in
    (
      p,
      marshal_ok std p data_ c ∙ ap (λ x. some x.0) same,
      subst (λ x. IsPayload std req kind x p) (ap (λ x. x.1) same)
          (payload_of-IsPayload std req kind in_ execution a b),
    )
