-- ===== src/Startup/Dialling.antt =====
-- Whom a bootstrap dial round dials: `startBootstrapDialLoop` of src/startup/loops.ts.
use ipfs_shard.Shared.{
  ℕ, suc, ◌+◌, List, [], ◌∷◌, ◌++◌, append-nil, append_assoc, Bool, true, false, Option, none, some,
  String, str_eq, eq_iff, ◌≡◌, refl, sym, ap, subst, ◌∙◌, inl, inr, arith, Bool-cases,
  if◌then◌else◌,
}
use ipfs_shard.Shared.Assoc.{has}
use ipfs_shard.Shared.Picks.{Picks, done, kept, passed, Any, has-Any, Any-has, HasId}
use ipfs_shard.Multiaddrs.{Multiaddrs}
use ipfs_shard.Backup.Rounds.{Dial}
use ipfs_shard.Startup.Loops.{
  Bootstrap, peer_id_of, dial_bootstrap, is_dialled, dial_each, dial_bootstrap_peers,
}

module _ (a : Multiaddrs) (net : a.Addr → Dial) (connected : List String) where
  -- The address has a peer id, and its peer is not connected.
  abbrev pub IsCandidate : a.Addr → Type 0
  IsCandidate addr =
      (id : String) × (HasId (a.peer_id addr) id × (Any (λ peer. peer ≡ id) connected → ⊥))

  candidate_lem :
      (o : Option String)
      → is_dialled a connected (peer_id_of a o) ≡ true
      → (id : String) × (HasId o id × (Any (λ peer. peer ≡ id) connected → ⊥))
  unfolding is_dialled
  candidate_lem none e = absurd (cc)
  candidate_lem (some id) e = elim (Bool-cases (str_eq id "")) [
    | inl empty ↦ absurd (cc (rw (empty, is_dialled) at e))
    | inr there ↦
        let free : (if has id connected then false else true) ≡ true =
          rw (there, is_dialled) at e in
        (
          id,
          (
            (refl, λ same. ground (arith, there, eq_iff id "")),
            λ known. ground (arith, free, Any-has id connected known),
          ),
        )
  ]

  passed_over :
      (o : Option String)
      → is_dialled a connected (peer_id_of a o) ≡ false
      → (id : String) × (HasId o id × (Any (λ peer. peer ≡ id) connected → ⊥))
      → ⊥
  unfolding is_dialled
  passed_over none e (id, ((same, _), _)) = absurd (cc)
  passed_over (some j) e (id, ((same, some_id), free)) = elim (Bool-cases (str_eq j "")) [
    | inl empty ↦ some_id (cc (same, (eq_iff j "").0 empty))
    | inr there ↦
        let known : (if has j connected then false else true) ≡ false =
          rw (there, is_dialled) at e in
        let one : j ≡ id = cc in
        free (has-Any id connected (ap (λ x. has x connected) (sym one) ∙ ground (arith, known)))
  ]

  -- What the loop takes.
  abbrev candidates : List a.Addr → List a.Addr
  candidates [] = []
  candidates (addr ∷ addrs) =
      if is_dialled a connected (peer_id_of a (a.peer_id addr))
      then addr ∷ candidates addrs
      else candidates addrs

  -- Those up to the one at whose dial `stop` is called, that one included.
  abbrev pub before_stop : List a.Addr → List a.Addr
  before_stop [] = []
  before_stop (addr ∷ addrs) = addr ∷ (if (net addr).stops then [] else before_stop addrs)

  abbrev one_if : Bool → ℕ
  one_if true = 1
  one_if false = 0

  abbrev pub reached : List a.Addr → ℕ
  reached [] = 0
  reached (addr ∷ addrs) = one_if (net addr).reached + reached addrs

  abbrev pub Dialled : List a.Addr → Bootstrap a → Bootstrap a → Type 0
  Dialled addrs w w' =
      (w'.dialled ≡ w.dialled ++ addrs) × (w'.dialed_count ≡ w.dialed_count + reached addrs)

  Dialled-nil : (w : Bootstrap a) → Dialled [] w w
  Dialled-nil w = (sym (append-nil w.dialled), omega arith)

  Dialled-cons :
      (addr : a.Addr) (addrs : List a.Addr) (w w' : Bootstrap a)
      → Dialled addrs (dial_bootstrap a (net addr) addr w) w'
      → Dialled (addr ∷ addrs) w w'
  unfolding dial_bootstrap
  Dialled-cons addr addrs w w' (more, count) =
      (more ∙ append_assoc w.dialled (addr ∷ []) addrs, count ∙ counted (net addr).reached)
    where
      counted :
          (b : Bool)
          → (if b then suc w.dialed_count else w.dialed_count) + reached addrs
            ≡ w.dialed_count + (one_if b + reached addrs)
      counted true = omega arith
      counted false = omega arith

  step_stopped :
      (addrs : List a.Addr) (w : Bootstrap a)
      → w.stopped ≡ true
      → dial_each a net connected addrs w ≡ w
  unfolding dial_each
  step_stopped [] w h = refl
  step_stopped (addr ∷ addrs) w h = simp (h, dial_each) refl

  step_skipped :
      (addr : a.Addr) (addrs : List a.Addr) (w : Bootstrap a)
      → w.stopped ≡ false
      → is_dialled a connected (peer_id_of a (a.peer_id addr)) ≡ false
      → dial_each a net connected (addr ∷ addrs) w ≡ dial_each a net connected addrs w
  unfolding dial_each
  step_skipped addr addrs w h f = simp (h, f, dial_each) refl

  step_dialled :
      (addr : a.Addr) (addrs : List a.Addr) (w : Bootstrap a)
      → w.stopped ≡ false
      → is_dialled a connected (peer_id_of a (a.peer_id addr)) ≡ true
      → dial_each a net connected (addr ∷ addrs) w
        ≡ dial_each a net connected addrs (dial_bootstrap a (net addr) addr w)
  unfolding dial_each
  step_dialled addr addrs w h f = simp (h, f, dial_each) refl

  after_dial :
      (addr : a.Addr) (addrs : List a.Addr) (w : Bootstrap a)
      → w.stopped ≡ false
      → let w1 = dial_bootstrap a (net addr) addr w in
        (w1.stopped ≡ false
          → Dialled (before_stop (candidates addrs)) w1 (dial_each a net connected addrs w1))
        → Dialled
            (if (net addr).stops then [] else before_stop (candidates addrs))
            w1
            (dial_each a net connected addrs w1)
  unfolding dial_bootstrap
  after_dial addr addrs w h later =
      let w1 = dial_bootstrap a (net addr) addr w in
      let w2 = dial_each a net connected addrs w1 in
      let rest = before_stop (candidates addrs) in
      elim (Bool-cases (net addr).stops) [
        | inl over ↦
            let halted : w1.stopped ≡ true =
              ap (λ (b : Bool). if b then true else w.stopped) over in
            subst (λ (b : Bool). Dialled (if b then [] else rest) w1 w2) (sym over)
              (subst (Dialled [] w1) (sym (step_stopped addrs w1 halted)) (Dialled-nil w1))
        | inr on ↦
            let ready : w1.stopped ≡ false =
              ap (λ (b : Bool). if b then true else w.stopped) on ∙ h in
            subst (λ (b : Bool). Dialled (if b then [] else rest) w1 w2) (sym on) (later ready)
      ]

  dial_each-Dialled :
      (addrs : List a.Addr) (w : Bootstrap a)
      → w.stopped ≡ false
      → Dialled (before_stop (candidates addrs)) w (dial_each a net connected addrs w)
  unfolding dial_each dial_bootstrap
  dial_each-Dialled [] w h = Dialled-nil w
  dial_each-Dialled (addr ∷ addrs) w h =
      elim (Bool-cases (is_dialled a connected (peer_id_of a (a.peer_id addr)))) [
        | inr skipped ↦ rw skipped (
            subst (Dialled (before_stop (candidates addrs)) w)
              (sym (step_skipped addr addrs w h skipped)) (dial_each-Dialled addrs w h))
        | inl dials ↦ rw dials (
            subst (Dialled (before_stop (addr ∷ candidates addrs)) w)
              (sym (step_dialled addr addrs w h dials))
              (Dialled-cons addr (if (net addr).stops then [] else before_stop (candidates addrs)) w
                (dial_each a net connected addrs (dial_bootstrap a (net addr) addr w))
                (after_dial addr addrs w h
                  (λ ready. dial_each-Dialled addrs (dial_bootstrap a (net addr) addr w) ready))))
      ]

  candidates-Picks : (addrs : List a.Addr) → Picks IsCandidate addrs (candidates addrs)
  candidates-Picks [] = done
  candidates-Picks (addr ∷ addrs) =
      elim (Bool-cases (is_dialled a connected (peer_id_of a (a.peer_id addr)))) [
        | inl e ↦ rw e (kept (candidate_lem (a.peer_id addr) e) (candidates-Picks addrs))
        | inr e ↦ rw e (passed (passed_over (a.peer_id addr) e) (candidates-Picks addrs))
      ]

  -- A round that is not stopped dials, in the order of the configuration, exactly the bootstrap
  -- addresses with a peer id that is none of a connected peer, up to the one at whose dial `stop` is
  -- called, and counts those reached.
  pub dial_bootstrap_peers-Dialled :
      (addrs : List a.Addr) (w : Bootstrap a)
      → w.stopped ≡ false
      → (chosen : List a.Addr) × (Picks IsCandidate addrs chosen
          × Dialled
              (before_stop chosen)
              (record w { dialed_count = 0 })
              (dial_bootstrap_peers a net connected addrs w))
  unfolding dial_bootstrap_peers
  dial_bootstrap_peers-Dialled addrs w h = (
    candidates addrs,
    (
      candidates-Picks addrs,
      subst (Dialled (before_stop (candidates addrs)) (record w { dialed_count = 0 }))
          (sym (started addrs w h)) (dial_each-Dialled addrs (record w { dialed_count = 0 }) h),
    ),
  )
    where
      started :
          (addrs : List a.Addr) (w : Bootstrap a)
          → w.stopped ≡ false
          → dial_bootstrap_peers a net connected addrs w
            ≡ dial_each a net connected addrs (record w { dialed_count = 0 })
      started addrs w h = simp h refl
