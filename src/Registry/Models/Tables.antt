-- ===== src/Registry/Models/Tables.antt =====
-- What saving, adding and deleting rows keeps of the table of devices.
use meshtastic_things.Prelude.{
  map, String, Bool, true, false, ◌≡◌, refl, sym, ap, ◌∙◌, ◌⊎◌, inl, inr, none, List, [], ◌∷◌, ◌++◌,
  arith, select, str_eq, eq_iff, Bool-cases,
}
use meshtastic_things.Prelude.Members.{In, In-map, In-append, In-select, any-false, find-none}
use meshtastic_things.Registry.Models.{
  Device, is_rival, violates_allowed, save_device, device_by_pk,
}

-- The primary key, and uq_devices_device_id_allowed: at most one registration of a device is
-- allowed.
pub record IsConsistent (devices : List Device) : Type 0 where
  pub pk : (d e : Device) → In d devices → In e devices → d.id ≡ e.id → d ≡ e
  pub allowed :
      (d e : Device)
      → In d devices
      → In e devices
      → d.is_allowed ≡ true
      → e.is_allowed ≡ true
      → d.device_id ≡ e.device_id
      → d.id ≡ e.id

-- The row may stand beside the allowed rows of the table.
abbrev pub Fits : Device → List Device → Type 0
Fits d devices =
    (e : Device)
    → In e devices
    → d.is_allowed ≡ true
    → e.is_allowed ≡ true
    → e.device_id ≡ d.device_id
    → e.id ≡ d.id

pub violates_allowed-Fits :
    (d : Device) (devices : List Device) → violates_allowed d devices ≡ false → Fits d devices
unfolding violates_allowed
violates_allowed-Fits d devices h e i a b same =
    let no_rival : is_rival d e ≡ false = any-false (is_rival d) e devices (ground arith) i in
    ground (arith, eq_iff e.id d.id)

pub In-save_device :
    (d u : Device) (devices : List Device)
    → In d (save_device u devices)
    → (d ≡ u) ⊎ (In d devices × (str_eq d.id u.id ≡ false))
unfolding save_device
In-save_device d u [] h = absurd h
In-save_device d u (e ∷ devices) h = elim (Bool-cases (str_eq e.id u.id)) [
  | inl same ↦
      let h' : In d (u ∷ save_device u devices) = rw same at h in
      elim h' [
        | inl here ↦ inl here
        | inr there ↦ elim (In-save_device d u devices there) [
          | inl a ↦ inl a
          | inr b ↦ inr (inr b.0, b.1)
        ]
      ]
  | inr other ↦
      let h' : In d (e ∷ save_device u devices) = rw other at h in
      elim h' [
        | inl here ↦ inr (inl here, rw here other)
        | inr there ↦ elim (In-save_device d u devices there) [
          | inl a ↦ inl a
          | inr b ↦ inr (inr b.0, b.1)
        ]
      ]
]

-- The row with the saved row's key is replaced by it, the others stay.
pub save_device-In :
    (e u : Device) (devices : List Device)
    → In e devices
    → (str_eq e.id u.id ≡ true → In u (save_device u devices))
      × (str_eq e.id u.id ≡ false → In e (save_device u devices))
unfolding save_device
save_device-In e u [] i = absurd i
save_device-In e u (d ∷ devices) (inl same) = (
  λ h. let h' : str_eq d.id u.id ≡ true = rw same at h in rw h' (inl refl),
  λ h. let h' : str_eq d.id u.id ≡ false = rw same at h in rw h' (inl same),
)
save_device-In e u (d ∷ devices) (inr i) =
    let (a, b) = save_device-In e u devices i in
    elim (Bool-cases (str_eq d.id u.id)) [
      | inl hit ↦ (λ h. rw hit (inl refl), λ h. rw hit (inr (b h)))
      | inr miss ↦ (λ h. rw miss (inr (a h)), λ h. rw miss (inr (b h)))
    ]

-- A row saved twice is as if saved once.
pub save_device-save_device :
    (r u : Device) (devices : List Device)
    → r.id ≡ u.id
    → save_device r (save_device u devices) ≡ save_device r devices
unfolding save_device
save_device-save_device r u [] same = refl
save_device-save_device r u (d ∷ devices) same = ground (
  arith,
  save_device-save_device r u devices same,
  eq_iff u.id r.id,
  eq_iff d.id u.id,
  eq_iff d.id r.id,
)

pub IsConsistent-append :
    (d : Device) (devices : List Device)
    → IsConsistent devices
    → violates_allowed d devices ≡ false
    → device_by_pk d.id devices ≡ none
    → IsConsistent (devices ++ d ∷ [])
IsConsistent-append d devices h v fresh = record {
  pk = λ a b i j same. elim (In-append a devices (d ∷ []) i) [
    | inl i' ↦ elim (In-append b devices (d ∷ []) j) [
      | inl j' ↦ h.pk a b i' j' same
      | inr j' ↦ absurd (new a i' (same ∙ ap (λ (e : Device). e.id) (last b j')))
    ]
    | inr i' ↦ elim (In-append b devices (d ∷ []) j) [
      | inl j' ↦ absurd (new b j' (sym same ∙ ap (λ (e : Device). e.id) (last a i')))
      | inr j' ↦ last a i' ∙ sym (last b j')
    ]
  ];
  allowed = λ a b i j p q same. elim (In-append a devices (d ∷ []) i) [
    | inl i' ↦ elim (In-append b devices (d ∷ []) j) [
      | inl j' ↦ h.allowed a b i' j' p q same
      | inr j' ↦ let e = last b j' in rw e (fits a i' (rw e at q) p (rw e at same))
    ]
    | inr i' ↦ elim (In-append b devices (d ∷ []) j) [
      | inl j' ↦ let e = last a i' in rw e (sym (fits b j' (rw e at p) q (sym (rw e at same))))
      | inr j' ↦ ap (λ (e : Device). e.id) (last a i' ∙ sym (last b j'))
    ]
  ];
}
  where
    last : (a : Device) → In a (d ∷ []) → a ≡ d
    last a (inl e) = e
    last a (inr x') = elim x' [ ]

    fits : Fits d devices
    fits = violates_allowed-Fits d devices v

    new : (a : Device) → In a devices → a.id ≡ d.id → ⊥
    new a i same =
        let n : str_eq a.id d.id ≡ false =
          find-none (λ (e : Device). str_eq e.id d.id) a devices fresh i in
        ground (arith, eq_iff a.id d.id)

pub IsConsistent-save :
    (u : Device) (devices : List Device)
    → IsConsistent devices
    → Fits u devices
    → IsConsistent (save_device u devices)
IsConsistent-save u devices h fits = record {
  pk = λ a b i j same. elim (In-save_device a u devices i) [
    | inl a' ↦ elim (In-save_device b u devices j) [
      | inl b' ↦ a' ∙ sym b'
      | inr (j', n) ↦ absurd (differ b.id u.id (sym same ∙ ap (λ (e : Device). e.id) a') n)
    ]
    | inr (i', m) ↦ elim (In-save_device b u devices j) [
      | inl b' ↦ absurd (differ a.id u.id (same ∙ ap (λ (e : Device). e.id) b') m)
      | inr (j', n) ↦ h.pk a b i' j' same
    ]
  ];
  allowed = λ a b i j p q same. elim (In-save_device a u devices i) [
    | inl a' ↦ elim (In-save_device b u devices j) [
      | inl b' ↦ ap (λ (e : Device). e.id) (a' ∙ sym b')
      | inr (j', n) ↦ rw a' (sym (fits b j' (rw a' at p) q (sym (rw a' at same))))
    ]
    | inr (i', m) ↦ elim (In-save_device b u devices j) [
      | inl b' ↦ rw b' (fits a i' (rw b' at q) p (rw b' at same))
      | inr (j', n) ↦ h.allowed a b i' j' p q same
    ]
  ];
}
  where
    differ : (s t : String) → s ≡ t → str_eq s t ≡ false → ⊥
    differ s t e n = ground (arith, eq_iff s t)

pub IsConsistent-select :
    (p : Device → Bool) (devices : List Device)
    → IsConsistent devices
    → IsConsistent (select p devices)
IsConsistent-select p devices h = record {
  pk = λ a b i j same. h.pk a b (In-select p a devices i).0 (In-select p b devices j).0 same;
  allowed = λ a b i j. h.allowed a b (In-select p a devices i).0 (In-select p b devices j).0;
}

-- A change of the rows that leaves the columns of the constraints alone.
pub IsConsistent-map :
    (f : Device → Device) (devices : List Device)
    → ((d : Device) → (f d).id ≡ d.id)
    → ((d : Device) → (f d).device_id ≡ d.device_id)
    → ((d : Device) → (f d).is_allowed ≡ d.is_allowed)
    → IsConsistent devices
    → IsConsistent (map f devices)
IsConsistent-map f devices id device_id allowed h = record {
  pk = λ a b i j same.
      let (d, p, k) = In-map f a devices i in
      let (e, q, l) = In-map f b devices j in
      let ids : d.id ≡ e.id =
        sym (id d)
        ∙ ap (λ (x : Device). x.id) (sym p)
        ∙ same
        ∙ ap (λ (x : Device). x.id) q
        ∙ id e in
      p ∙ ap f (h.pk d e k l ids) ∙ sym q;
  allowed = λ a b i j x y same.
      let (d, p, k) = In-map f a devices i in
      let (e, q, l) = In-map f b devices j in
      ap (λ (x : Device). x.id) p
      ∙ id d
      ∙ h.allowed d e k l (sym (allowed d) ∙ ap (λ (x : Device). x.is_allowed) (sym p) ∙ x)
          (sym (allowed e) ∙ ap (λ (x : Device). x.is_allowed) (sym q) ∙ y)
          (sym (device_id d)
            ∙ ap (λ (x : Device). x.device_id) (sym p)
            ∙ same
            ∙ ap (λ (x : Device). x.device_id) q
            ∙ device_id e)
      ∙ sym (id e)
      ∙ ap (λ (x : Device). x.id) (sym q);
}
