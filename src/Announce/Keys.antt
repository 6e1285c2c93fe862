-- ===== src/Announce/Keys.antt =====
-- The datastore's keys for pins and for announcements, and what a write under one leaves alone.
use Prim.Native.String.{len, slice, ◌++◌ as text_append}
use text.Mathlib.TextPositions.{slice-append_left}
use text.Mathlib.TextLemmas.{append_assoc as text_append_assoc}
use ipfs_shard.Shared.{
  ℕ, List, [], Option, none, some, String, str_eq, eq_iff, ◌≡◌, ◌≢◌, refl, sym, ap, ◌∙◌, ◌⊎◌, inl,
  inr, arith, Bool-cases,
}
use ipfs_shard.Multiformats.{Multiformats}
use ipfs_shard.Node.Pins.{Tried, returned, Datastore, pin_key, pin_add, pin_rm, is_pinned, or_false}
use ipfs_shard.Node.Pinning.{Tried-cases, text_append_inj, DatastoreLaws}
use ipfs_shard.Blockstores.Network.{includes}
use ipfs_shard.Announce.Status.{
  Status, AnnounceRecord, Json, status_key, get_status, set_status, parse_status,
}

-- What the datastore is relied on for: a value that was put is read back, and a write changes no
-- other key.
pub record ValueLaws (d : Datastore) : Type 0 where
  pub get_put :
      (k : String) (v : List ℕ) (s s' : d.Store)
      → d.put k v s ≡ returned s'
      → d.get k s' ≡ returned v
  pub get_put_ne :
      (k j : String) (v : List ℕ) (s s' : d.Store)
      → d.put k v s ≡ returned s'
      → k ≢ j
      → d.get j s' ≡ d.get j s
  pub get_delete_ne :
      (k j : String) (s s' : d.Store) → d.delete k s ≡ returned s' → k ≢ j → d.get j s' ≡ d.get j s

-- Texts behind two beginnings of the same length that differ are different.
other_beginning : (p q x y : String) → len p ≡ len q → p ≢ q → text_append p x ≢ text_append q y
other_beginning p q x y same differ e = differ (
    sym (slice-append_left p x)
    ∙ ap (λ (t : String). slice t 0 (len p)) e
    ∙ rw same (slice-append_left q y))

module _ (m : Multiformats) where
  pub pin_key-status_key :
      (d : Datastore) (json : Json) (cid other : m.Cid)
      → pin_key m d cid ≢ status_key m d json other
  unfolding pin_key status_key
  pin_key-status_key d json cid other e =
      other_beginning "/local/pins" "/local/dht-" (text_append "/" (m.to_string cid))
        (text_append "announces/" (m.to_string other)) refl
        (λ same. ground (arith, eq_iff "/local/pins" "/local/dht-"))
        (sym (text_append_assoc "/local/pins" "/" (m.to_string cid))
          ∙ e
          ∙ text_append_assoc "/local/dht-" "announces/" (m.to_string other))

abbrev pub read_status : Option AnnounceRecord → Option Status
read_status none = none
read_status (some r) = some r.status

module _ (m : Multiformats) (d : Datastore) (json : Json) where
  -- What the code relies on of JSON: the status that is read is the one that was written.
  abbrev pub ReadsBack : Type 0
  ReadsBack = (r : AnnounceRecord) → read_status (json.parse (json.stringify r)) ≡ some r.status

  status_key_ne :
      (cid other : m.Cid)
      → m.to_string cid ≢ m.to_string other
      → status_key m d json cid ≢ status_key m d json other
  unfolding status_key
  status_key_ne cid other differ e =
      differ (text_append_inj "/local/dht-announces/" (m.to_string cid) (m.to_string other) e)

  module _ (laws : ValueLaws d) (reads : ReadsBack) where
    -- A status read after a write: that of before, or the one written, for the same CID.
    pub get_status-set_status :
        (cid other : m.Cid) (r : AnnounceRecord) (s : d.Store)
        → (get_status m d json other (set_status m d json cid r s) ≡ get_status m d json other s)
          ⊎ ((m.to_string cid ≡ m.to_string other)
              × (read_status (get_status m d json other (set_status m d json cid r s))
                  ≡ some r.status))
    unfolding get_status set_status
    get_status-set_status cid other r s =
        elim (Tried-cases (d.put (status_key m d json cid) (json.stringify r) s)) [
          | inr (err, f) ↦ rw f (inl refl)
          | inl (t, f) ↦ rw f (elim (Bool-cases (str_eq (m.to_string cid) (m.to_string other))) [
            | inl same ↦
                let key = (eq_iff (m.to_string cid) (m.to_string other)).0 same in
                inr (
                  key,
                  rw (← status_key_same key) (
                      ap (λ (x : Tried (List ℕ)). read_status (parse_status m d json x))
                        (laws.get_put (status_key m d json cid) (json.stringify r) s t f)
                      ∙ reads r),
                )
            | inr away ↦ inl (
                ap (parse_status m d json) (
                  laws.get_put_ne (status_key m d json cid) (status_key m d json other)
                    (json.stringify r) s t f
                    (status_key_ne cid other
                      (λ e. ground (arith, eq_iff (m.to_string cid) (m.to_string other))))))
          ])
        ]
      where
        status_key_same :
            m.to_string cid ≡ m.to_string other
            → status_key m d json cid ≡ status_key m d json other
        status_key_same e = unfold status_key in ap (text_append "/local/dht-announces/") e

    -- Pins and unpins leave every status alone.
    pub get_status-pin_add :
        (cid other : m.Cid) (s s' : d.Store)
        → pin_add m d cid s ≡ returned s'
        → get_status m d json other s' ≡ get_status m d json other s
    unfolding get_status pin_add
    get_status-pin_add cid other s s' e = elim (Tried-cases (d.put (pin_key m d cid) [] s)) [
      | inr (err, f) ↦ absurd (cc (rw f at e))
      | inl (t, f) ↦
          let same : t ≡ s' = cc (rw f at e) in
          rw (← same) (
            ap (parse_status m d json) (
              laws.get_put_ne (pin_key m d cid) (status_key m d json other) [] s t f
                (pin_key-status_key m d json cid other)))
    ]

    pub get_status-pin_rm :
        (cid other : m.Cid) (s s' : d.Store)
        → pin_rm m d cid s ≡ returned s'
        → get_status m d json other s' ≡ get_status m d json other s
    unfolding get_status pin_rm
    get_status-pin_rm cid other s s' e = elim (Tried-cases (d.delete (pin_key m d cid) s)) [
      | inl (t, f) ↦
          let same : t ≡ s' = cc (rw f at e) in
          rw (← same) (
            ap (parse_status m d json) (
              laws.get_delete_ne (pin_key m d cid) (status_key m d json other) s t f
                (pin_key-status_key m d json cid other)))
      | inr (err, f) ↦ elim (Bool-cases (includes err.message "not found")) [
        | inr fails ↦ absurd (cc (rw (f, fails) at e))
        | inl missing ↦ let same : s ≡ s' = cc (rw (f, missing) at e) in rw (← same) refl
      ]
    ]

  -- A status write leaves every pin alone, if the datastore's writes change no other key.
  pub is_pinned-set_status :
      DatastoreLaws d
      → (cid other : m.Cid) (r : AnnounceRecord) (s : d.Store)
      → is_pinned m d other (set_status m d json cid r s) ≡ is_pinned m d other s
  unfolding is_pinned set_status
  is_pinned-set_status laws cid other r s =
      elim (Tried-cases (d.put (status_key m d json cid) (json.stringify r) s)) [
        | inr (err, f) ↦ rw f refl
        | inl (t, f) ↦ rw f (
            ap or_false (
              laws.has_put_ne (status_key m d json cid) (pin_key m d other) (json.stringify r) s t f
                (λ e. pin_key-status_key m d json other cid (sym e))))
      ]
