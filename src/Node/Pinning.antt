-- ===== src/Node/Pinning.antt =====
-- Sequences of pin and unpin calls: `IPFSNode.pins` of src/ipfs-node.ts.
use Prim.Native.String.{len, slice, ◌++◌ as text_append}
use text.Mathlib.TextPositions.{slice-append_right, len-append}
use ipfs_shard.Shared.{
  ℕ, List, [], ◌∷◌, Bool, true, false, String, str_eq, eq_iff, ◌≡◌, ◌≢◌, refl, sym, ap, ◌∙◌, ◌⊎◌,
  inl, inr, arith, Bool-cases, if◌then◌else◌,
}
use ipfs_shard.Multiformats.{Multiformats}
use ipfs_shard.InterfaceBlockstore.{Failure}
use ipfs_shard.Blockstores.Network.{includes}
use ipfs_shard.Node.Pins.{
  Tried, returned, threw, Datastore, or_false, pin_key, is_pinned, pin_add, pin_rm,
}

pub Tried-cases {ℓ} :
    {A : Type ℓ}
    → (t : Tried A) → ((a : A) × (t ≡ returned a)) ⊎ ((err : Failure) × (t ≡ threw err))
Tried-cases (returned a) = inl (a, refl)
Tried-cases (threw err) = inr (err, refl)

-- What the datastore is relied on for: a key is there after its `put` and gone after its `delete`,
-- and these change no other key. Where the wrapped datastore's `has` throws, the program reads false.
pub record DatastoreLaws (d : Datastore) : Type 0 where
  pub has_put :
      (k : String) (v : List ℕ) (s s' : d.Store)
      → d.put k v s ≡ returned s'
      → d.has k s' ≡ returned true
  pub has_put_ne :
      (k j : String) (v : List ℕ) (s s' : d.Store)
      → d.put k v s ≡ returned s'
      → k ≢ j
      → d.has j s' ≡ d.has j s
  pub has_delete :
      (k : String) (s s' : d.Store) → d.delete k s ≡ returned s' → d.has k s' ≡ returned false
  pub has_delete_ne :
      (k j : String) (s s' : d.Store) → d.delete k s ≡ returned s' → k ≢ j → d.has j s' ≡ d.has j s
  pub has_missing :
      (k : String) (s : d.Store) (err : Failure)
      → d.delete k s ≡ threw err
      → includes err.message "not found" ≡ true
      → or_false (d.has k s) ≡ false

pub after_prefix : (p s : String) → slice (text_append p s) (len p) (len (text_append p s)) ≡ s
after_prefix p s = rw (len-append p s) (slice-append_right p s)

pub text_append_inj : (p s t : String) → text_append p s ≡ text_append p t → s ≡ t
text_append_inj p s t e =
    sym (after_prefix p s) ∙ ap (λ (x : String). slice x (len p) (len x)) e ∙ after_prefix p t

module _ (m : Multiformats) (d : Datastore) (laws : DatastoreLaws d) where
  other_key :
      (cid other : m.Cid)
      → str_eq (m.to_string cid) (m.to_string other) ≡ false
      → pin_key m d cid ≢ pin_key m d other
  unfolding pin_key
  other_key cid other e same =
      let inside = text_append_inj "/local/pins/" (m.to_string cid) (m.to_string other) same in
      ground (arith, eq_iff (m.to_string cid) (m.to_string other))

  same_key :
      (cid other : m.Cid)
      → str_eq (m.to_string cid) (m.to_string other) ≡ true
      → pin_key m d cid ≡ pin_key m d other
  unfolding pin_key
  same_key cid other e =
      ap (text_append "/local/pins/") ((eq_iff (m.to_string cid) (m.to_string other)).0 e)

  pin_add_lem :
      (cid other : m.Cid) (s s' : d.Store)
      → pin_add m d cid s ≡ returned s'
      → is_pinned m d other s'
        ≡ (if str_eq (m.to_string cid) (m.to_string other) then true else is_pinned m d other s)
  unfolding pin_add is_pinned
  pin_add_lem cid other s s' e = elim (Tried-cases (d.put (pin_key m d cid) [] s)) [
    | inr (err, f) ↦ absurd (cc (rw f at e))
    | inl (t, f) ↦
        let same : t ≡ s' = cc (rw f at e) in
        elim (Bool-cases (str_eq (m.to_string cid) (m.to_string other))) [
          | inl here ↦
              rw (here, ← same_key cid other here, ← same)
                (ap or_false (laws.has_put (pin_key m d cid) [] s t f))
          | inr away ↦
              rw (away, ← same)
                (ap or_false (
                  laws.has_put_ne (pin_key m d cid) (pin_key m d other) [] s t f
                    (other_key cid other away)))
        ]
  ]

  removed :
      (cid other : m.Cid) (s s' : d.Store)
      → or_false (d.has (pin_key m d cid) s') ≡ false
      → (pin_key m d cid ≢ pin_key m d other
          → d.has (pin_key m d other) s' ≡ d.has (pin_key m d other) s)
      → is_pinned m d other s'
        ≡ (if str_eq (m.to_string cid) (m.to_string other) then false else is_pinned m d other s)
  unfolding is_pinned
  removed cid other s s' gone frame =
      elim (Bool-cases (str_eq (m.to_string cid) (m.to_string other))) [
        | inl here ↦ rw (here, ← same_key cid other here) gone
        | inr away ↦ rw away (ap or_false (frame (other_key cid other away)))
      ]

  pin_rm_lem :
      (cid other : m.Cid) (s s' : d.Store)
      → pin_rm m d cid s ≡ returned s'
      → is_pinned m d other s'
        ≡ (if str_eq (m.to_string cid) (m.to_string other) then false else is_pinned m d other s)
  unfolding pin_rm
  pin_rm_lem cid other s s' e = elim (Tried-cases (d.delete (pin_key m d cid) s)) [
    | inl (t, f) ↦
        let same : t ≡ s' = cc (rw f at e) in
        rw (← same) (
          removed cid other s t (ap or_false (laws.has_delete (pin_key m d cid) s t f))
            (λ differ. laws.has_delete_ne (pin_key m d cid) (pin_key m d other) s t f differ))
    | inr (err, f) ↦ elim (Bool-cases (includes err.message "not found")) [
      | inr fails ↦ absurd (cc (rw (f, fails) at e))
      | inl missing ↦
          let same : s ≡ s' = cc (rw (f, missing) at e) in
          rw (← same) (
            removed cid other s s (laws.has_missing (pin_key m d cid) s err f missing)
              (λ differ. refl))
    ]
  ]

  pub data PinCall : Type 0 where
    adds : m.Cid → PinCall
    removes : m.Cid → PinCall

  unfoldable pub run_pin : PinCall → d.Store → Tried d.Store
  run_pin (adds cid) s = pin_add m d cid s
  run_pin (removes cid) s = pin_rm m d cid s

  -- Calls one after another, each of which succeeds.
  pub data Runs : List PinCall → d.Store → d.Store → Type 0 where
    done : {s : d.Store} → Runs [] s s
    call :
        {c : PinCall} {calls : List PinCall} {s t u : d.Store}
        → run_pin c s ≡ returned t
        → Runs calls t u
        → Runs (c ∷ calls) s u

  -- A set: the last call for a CID decides.
  abbrev pub pinned_after : List PinCall → m.Cid → Bool → Bool
  pinned_after [] other b = b
  pinned_after (adds cid ∷ calls) other b =
      pinned_after calls other (if str_eq (m.to_string cid) (m.to_string other) then true else b)
  pinned_after (removes cid ∷ calls) other b =
      pinned_after calls other (if str_eq (m.to_string cid) (m.to_string other) then false else b)

  -- After any sequence of pin and unpin calls that succeed, a CID is pinned exactly if the last call
  -- for it was a pin, or if there was none and it was pinned before; removing a pin that is not
  -- there counts as a success.
  pub is_pinned-Runs :
      (calls : List PinCall) (other : m.Cid) (s u : d.Store)
      → Runs calls s u
      → is_pinned m d other u ≡ pinned_after calls other (is_pinned m d other s)
  unfolding run_pin
  is_pinned-Runs [] other s u done = refl
  is_pinned-Runs (adds cid ∷ calls) other s u (call {t} e runs) =
      is_pinned-Runs calls other t u runs
      ∙ ap (pinned_after calls other) (pin_add_lem cid other s t e)
  is_pinned-Runs (removes cid ∷ calls) other s u (call {t} e runs) =
      is_pinned-Runs calls other t u runs
      ∙ ap (pinned_after calls other) (pin_rm_lem cid other s t e)
