-- ===== src/Metrics/Stale.antt =====
-- Which connections `updateNodeMetrics` of src/metrics.ts shows as open.
use ipfs_shard.Shared.{
  ℕ, List, [], ◌∷◌, ◌++◌, true, false, some, String, eq_iff, All, ◌≡◌, ◌≢◌, refl, sym, subst,
  str_eq, Option, ap, ◌∙◌, inl, inr, arith, Bool-cases, Option-cases,
}
use ipfs_shard.Metrics.Update.{
  Labels, NodeConnection, NodeGauges, labels_eq, set_label, get_label, labels_of, open_value,
  set_statuses, update_node_metrics,
}

labels_eq-≡ : (l k : Labels) → labels_eq l k ≡ true → l ≡ k
unfolding labels_eq
labels_eq-≡ l k e = λ i. record {
  peer_id = (eq_iff l.peer_id k.peer_id).0 (ground arith) i;
  remote_addr = (eq_iff l.remote_addr k.remote_addr).0 (ground arith) i;
  direction = (eq_iff l.direction k.direction).0 (ground arith) i;
}

labels_eq_self : (l : Labels) → labels_eq l l ≡ true
unfolding labels_eq
labels_eq_self l = ground (
  arith,
  (eq_iff l.peer_id l.peer_id).1 refl,
  (eq_iff l.remote_addr l.remote_addr).1 refl,
  (eq_iff l.direction l.direction).1 refl,
)

labels_eq-≢ : (l k : Labels) → l ≢ k → labels_eq l k ≡ false
labels_eq-≢ l k h = elim (Bool-cases (labels_eq l k)) [
  | inl e ↦ absurd (h (labels_eq-≡ l k e))
  | inr e ↦ e
]

get_label-set_label_self :
    (l : Labels) (n : ℕ) (gauge : List (Labels × ℕ)) → get_label l (set_label l n gauge) ≡ some n
unfolding get_label set_label
get_label-set_label_self l n [] = rw (labels_eq_self l) refl
get_label-set_label_self l n ((j, v) ∷ gauge) =
    ground (arith, labels_eq_self l, get_label-set_label_self l n gauge)

get_label-set_label_ne :
    (l k : Labels) (n : ℕ) (gauge : List (Labels × ℕ))
    → l ≢ k
    → get_label k (set_label l n gauge) ≡ get_label k gauge
unfolding get_label set_label
get_label-set_label_ne l k n [] h = rw (labels_eq-≢ k l (λ e. h (sym e))) refl
get_label-set_label_ne l k n ((j, v) ∷ gauge) h = elim (Bool-cases (labels_eq l j)) [
  | inl e ↦
      let other = labels_eq-≢ k l (λ e. h (sym e)) in
      ground (arith, e, other, ap (labels_eq k) (labels_eq-≡ l j e))
  | inr e ↦ ground (arith, e, get_label-set_label_ne l k n gauge h)
]

-- No connection of the list has the labels `k`.
abbrev pub Unlabelled : Labels → List NodeConnection → Type 0
Unlabelled k = All (λ c. (addr : String) → c.remote_addr ≡ some addr → labels_of c addr ≢ k)

set_statuses-Unlabelled :
    (k : Labels) (cs : List NodeConnection) (gauge : List (Labels × ℕ))
    → Unlabelled k cs
    → get_label k (set_statuses cs gauge).0 ≡ get_label k gauge
unfolding set_statuses
set_statuses-Unlabelled k [] gauge _ = refl
set_statuses-Unlabelled k (c ∷ cs) gauge (other, others) = elim (Option-cases c.remote_addr) [
  | inl f ↦ rw f refl
  | inr (addr, f) ↦ rw f (
      set_statuses-Unlabelled k cs (set_label (labels_of c addr) (open_value c) gauge) others
      ∙ get_label-set_label_ne (labels_of c addr) k (open_value c) gauge (other addr f))
]

abbrev pub HasAddress : NodeConnection → Type 0
HasAddress c = (addr : String) × (c.remote_addr ≡ some addr)

-- The loop reaches a connection behind connections with addresses and sets its label.
set_statuses-reached :
    (before after : List NodeConnection) (c : NodeConnection) (addr : String)
    (gauge : List (Labels × ℕ))
    → All HasAddress before
    → c.remote_addr ≡ some addr
    → Unlabelled (labels_of c addr) after
    → get_label (labels_of c addr) (set_statuses (before ++ c ∷ after) gauge).0
      ≡ some (open_value c)
unfolding set_statuses
set_statuses-reached [] after c addr gauge _ f none_after = rw f (
    set_statuses-Unlabelled (labels_of c addr) after
      (set_label (labels_of c addr) (open_value c) gauge) none_after
    ∙ get_label-set_label_self (labels_of c addr) (open_value c) gauge)
set_statuses-reached (b ∷ before) after c addr gauge ((at, g), addressed) f none_after = rw g (
    set_statuses-reached before after c addr (set_label (labels_of b at) (open_value b) gauge)
      addressed f none_after)

-- What the gauge says of a connection: 1 if its status is open, and 0 if it is any other.
pub data Says (status : String) (value : Option ℕ) : Type 0 where
  says_open : status ≡ "open" → value ≡ some 1 → Says status value
  says_other : status ≢ "open" → value ≡ some 0 → Says status value

open_value-Says : (c : NodeConnection) → Says c.status (some (open_value c))
open_value-Says c = elim (Bool-cases (str_eq c.status "open")) [
  | inl same ↦ says_open ((eq_iff c.status "open").0 same) (rw same refl)
  | inr other ↦ says_other (λ e. ground (arith, other, eq_iff c.status "open")) (rw other refl)
]

-- `updateNodeMetrics` shows a connection by 1 if its status is `open`, and by 0 if it is another,
-- if all connections before it have a remote address and none behind it has its labels. Labels that no connection has keep their value: the
-- gauge of a closed connection stays at 1 if it was 1.
pub update_node_metrics-Shows :
    (peers multiaddrs uptime : ℕ) (before after : List NodeConnection) (c : NodeConnection)
    (addr : String) (k : Labels) (g : NodeGauges)
    → All HasAddress before
    → c.remote_addr ≡ some addr
    → Unlabelled (labels_of c addr) after
    → Unlabelled k (before ++ c ∷ after)
    → let shown =
        (update_node_metrics peers multiaddrs uptime (before ++ c ∷ after) g).connection_status in
      Says c.status (get_label (labels_of c addr) shown)
      × (get_label k shown ≡ get_label k g.connection_status)
unfolding update_node_metrics
update_node_metrics-Shows p m u before after c addr k g addressed f none_after un = (
  subst (Says c.status)
      (sym (set_statuses-reached before after c addr g.connection_status addressed f none_after))
      (open_value-Says c),
  set_statuses-Unlabelled k (before ++ c ∷ after) g.connection_status un,
)
