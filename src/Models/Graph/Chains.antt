-- ===== src/Models/Graph/Chains.antt =====
-- Chains of dependencies.
use execgo.Base.{String, ◌≡◌, sym, ap, ◌∙◌, subst, inl, inr, List, [], ◌∷◌, In, IsDistinct}
use execgo.Models.Task.{Task}
use execgo.Models.Graph.Edges.{ids, DepsIn}
use execgo.Models.Graph.Drain.{IsOrdered}
use execgo.Models.Graph.Order.{IsPlan}

-- A task named `v` lists `w` as a dependency.
pub data DependsOn (ts : List Task) (v w : String) : Type 0 where
  listed : (t : Task) → In t ts → t.id ≡ v → In w t.depends_on → DependsOn ts v w

-- One dependency after another.
pub data Chain (ts : List Task) : String → String → Type 0 where
  last : {v w : String} → DependsOn ts v w → Chain ts v w
  next : {u v w : String} → DependsOn ts u v → Chain ts v w → Chain ts u w

pub DepsIn_listed :
    (ts : List Task) (v w : String) (done : List String) (t : Task)
    → DepsIn ts v done
    → In t ts
    → t.id ≡ v
    → In w t.depends_on
    → In w done
DepsIn_listed [] v w done t d m e k = absurd m
DepsIn_listed (u ∷ ts) v w done t d (inl p) e k =
    d.0 (sym (ap (λ x. x.id) p) ∙ e) w (subst (λ x. In w x.depends_on) p k)
DepsIn_listed (u ∷ ts) v w done t d (inr m) e k = DepsIn_listed ts v w done t d.1 m e k

pub DependsOn-In :
    {ts : List Task} {v w : String} (plan : List String)
    → IsOrdered ts plan
    → In v plan
    → DependsOn ts v w
    → In w plan
DependsOn-In [] o m d = m
DependsOn-In {ts} {v} {w} (x ∷ plan) o (inl e) (listed t k p q) =
    inr (DepsIn_listed ts x w plan t o.0 k (p ∙ e) q)
DependsOn-In (x ∷ plan) o (inr m) d = inr (DependsOn-In plan o.1 m d)

-- What an ordered list holds, it holds with all that this depends on.
Chain-In :
    {ts : List Task} {v w : String} (plan : List String)
    → IsOrdered ts plan
    → In v plan
    → Chain ts v w
    → In w plan
Chain-In plan o m (last d) = DependsOn-In plan o m d
Chain-In plan o m (next d c) = Chain-In plan o (DependsOn-In plan o m d) c

head-Chain :
    {ts : List Task} {w : String} (x : String) (plan : List String)
    → IsOrdered ts (x ∷ plan)
    → Chain ts x w
    → In w plan
head-Chain {ts} {w} x plan o (last (listed t k p q)) = DepsIn_listed ts x w plan t o.0 k p q
head-Chain {ts} x plan o (next {v = v} (listed t k p q) c) =
    Chain-In plan o.1 (DepsIn_listed ts x v plan t o.0 k p q) c

ordered_no_cycle :
    {ts : List Task} {v : String} (plan : List String)
    → IsOrdered ts plan
    → IsDistinct plan
    → In v plan
    → ¬ Chain ts v v
ordered_no_cycle [] o d m c = m
ordered_no_cycle {ts} {v} (x ∷ plan) o d (inl e) c =
    d.0 (head-Chain x plan o (subst (λ u. Chain ts u u) e c))
ordered_no_cycle (x ∷ plan) o d (inr m) c = ordered_no_cycle plan o.1 d.1 m c

pub In-ids : (t : Task) (ts : List Task) → In t ts → In t.id (ids ts)
In-ids t [] m = m
In-ids t (u ∷ ts) (inl e) = inl (ap (λ x. x.id) e)
In-ids t (u ∷ ts) (inr m) = inr (In-ids t ts m)

Chain_head : {ts : List Task} {v w : String} → Chain ts v w → In v (ids ts)
Chain_head {ts} {v} (last (listed t k p q)) = subst (λ u. In u (ids ts)) p (In-ids t ts k)
Chain_head {ts} {v} (next (listed t k p q) c) = subst (λ u. In u (ids ts)) p (In-ids t ts k)

-- In a graph with a plan no chain of dependencies leads back to where it began.
pub IsPlan-no_cycle :
    {ts : List Task} {plan : List String} (v : String) → IsPlan ts plan → ¬ Chain ts v v
IsPlan-no_cycle {ts} {plan} v p c =
    ordered_no_cycle plan p.ordered p.once (p.complete v (Chain_head c)) c
