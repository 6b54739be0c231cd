-- ===== src/Models/Graph/Release.antt =====
-- One round of the loop of detectCycle: the edges out of a node are taken off.
use execgo.Base.{
  ℕ, ◌+◌, ◌<◌, String, ◌≡◌, sym, ◌∙◌, subst, ◌↔◌, inl, inr, List, [], ◌∷◌, ◌++◌, arith, eq_iff,
  eq_refl, Bool-cases, count, count-pos_of_In, In_of_count-pos, In, IsDistinct, ℤ, pos, pred_ℤ,
  is_zero,
}
use mathlib.Core.List.{append-nil, append_assoc}
use execgo.Base.Dict.{Dict, insert, lookup-insert}
use execgo.Models.Graph.{release}
use execgo.Models.Graph.Edges.{degree_of}

-- `added` is what a round puts behind the queue: the listed children whose degree falls to zero.
pub record IsReleased (children queue queue' : List String) (left : String → ℕ) : Type 0 where
  pub added : List String
  pub behind : queue' ≡ queue ++ added
  pub members : (v : String) → In v added ↔ (In v children × (left v ≡ 0))
  pub distinct : IsDistinct added

-- The child at the head reaches zero: it goes in front of what the rest adds.
IsReleased-cons_zero :
    {c : String} {cs queue queue' : List String} {left : String → ℕ}
    → left c + count c cs ≡ 0
    → IsReleased cs (queue ++ c ∷ []) queue' left
    → IsReleased (c ∷ cs) queue queue' left
IsReleased-cons_zero {c} {cs} {queue} {queue'} {left} h r = record {
  added = c ∷ r.added;
  behind = r.behind ∙ append_assoc queue (c ∷ []) r.added;
  members = λ v. (
    λ m. elim m [
      | inl e ↦ (inl e, rw e (omega arith))
      | inr k ↦ let (old, zero_left) = (r.members v).0 k in (inr old, zero_left)
    ],
    λ (m, e). elim m [ inl p ↦ inl p | inr k ↦ inr ((r.members v).1 (k, e)) ],
  );
  distinct = (λ m. absurd (omega (arith, count-pos_of_In c cs ((r.members c).0 m).0)), r.distinct);
}

-- The child at the head keeps edges: the rest adds all that is added.
IsReleased-cons_pos :
    {c : String} {cs queue queue' : List String} {left : String → ℕ}
    → 0 < left c + count c cs
    → IsReleased cs queue queue' left
    → IsReleased (c ∷ cs) queue queue' left
IsReleased-cons_pos {c} {cs} {queue} {queue'} {left} h r = record {
  added = r.added;
  behind = r.behind;
  members = λ v. (
    λ m. let (old, e) = (r.members v).0 m in (inr old, e),
    λ (m, e). (r.members v).1 (
      elim m [
        | inl p ↦
            let fact = subst (λ w. left w ≡ 0) p e in
            subst (λ w. In w cs) (sym p) (In_of_count-pos c cs (omega arith))
        | inr k ↦ k
      ],
      e,
    ),
  );
  distinct = r.distinct;
}

-- Where each degree is what is left and the number of edges to take off, the round leaves what is
-- left. No degree falls below zero on the way.
pub release_lem :
    (children : List String) (degree : Dict ℤ) (queue : List String) (left : String → ℕ)
    → ((v : String) → degree_of degree v ≡ pos (left v + count v children))
    → ((v : String) → degree_of (release children degree queue).0 v ≡ pos (left v))
      × IsReleased children queue (release children degree queue).1 left
unfolding release count
release_lem [] degree queue left h = (
  λ v. ground (arith, h v),
  record {
    added = [];
    behind = sym (append-nil queue);
    members = λ v. (λ m. absurd m, λ m. absurd m.0);
    distinct = tt;
  },
)
release_lem (c ∷ cs) degree queue left h =
    let x = pred_ℤ (degree_of degree c) in
    let here : x ≡ pos (left c + count c cs) = ground (arith, h c, eq_refl c) in
    let degrees : (v : String) → degree_of (insert c x degree) v ≡ pos (left v + count v cs) =
      λ v. ground (arith, h v, h c, lookup-insert c v x degree, eq_iff c v) in
    elim (Bool-cases (is_zero x)) [
      | inl zero_now ↦
          let (low, r) = release_lem cs (insert c x degree) (queue ++ c ∷ []) left degrees in
          rw (zero_now, release) (low, IsReleased-cons_zero (ground arith) r)
      | inr still ↦
          let (low, r) = release_lem cs (insert c x degree) queue left degrees in
          rw (still, release) (low, IsReleased-cons_pos (ground arith) r)
    ]
