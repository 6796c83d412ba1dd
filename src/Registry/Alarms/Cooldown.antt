-- ===== src/Registry/Alarms/Cooldown.antt =====
-- How often an owner is mailed about the same thing.
use meshtastic_things.Prelude.{
  ℕ, ◌+◌, ◌≤◌, ◌<◌, String, Bool, true, false, ◌&&◌, ◌||◌, ◌==◌, ◌≡◌, refl, ◌∙◌, inl, inr, Option,
  none, some, List, [], ◌∷◌, arith, str_eq, eq_iff, leb, Bool-cases, Option-cases,
}
use meshtastic_things.Prelude.Members.{In-find}
use meshtastic_things.Cache.{CacheOf, IsCacheOf}
use meshtastic_things.Registry.Models.{Owner, Device, World, mesh_by_pk}
use meshtastic_things.Registry.Alarms.{
  AlarmEvent, Mail, Mailer, cooldown_key, mail_for, notify, alarm_owner, alarm_device, route,
  owner_in, device_of, handle_alarm, consume_alarms,
}

module _ (cache : CacheOf (Unit {0})) (laws : IsCacheOf cache) (cooldown_seconds : ℕ) where
  -- A mail is later, by the cooldown at least, than each earlier one about the same device, channel and
  -- detector.
  abbrev pub After : Mail → List Mail → Type 0
  After m [] = Unit
  After m (n ∷ mails) =
      (n.mesh_id ≡ m.mesh_id
        → n.device_id ≡ m.device_id
        → n.channel ≡ m.channel
        → n.detector ≡ m.detector
        → n.sent_at + cooldown_seconds ≤ m.sent_at)
      × After m mails

  abbrev pub Apart : List Mail → Type 0
  Apart [] = Unit
  Apart (m ∷ mails) = After m mails × Apart mails

  -- The key of what a mail is about.
  abbrev key_of : Mail → String
  key_of m = cooldown_key m.mesh_id m.device_id m.channel m.detector

  -- The cache holds the key of each mail until its cooldown is over.
  abbrev Held : cache.Cache → List Mail → Type 0
  Held c [] = Unit
  Held c (m ∷ mails) =
      ((t : ℕ) → t < m.sent_at + cooldown_seconds → cache.get t (key_of m) c ≡ some tt)
      × Held c mails

  record IsSpaced (m : Mailer cache cooldown_seconds) : Type 0 where
    held : Held m.cooldowns m.mails
    apart : Apart m.mails

  Held-set :
      (now : ℕ) (key : String) (c : cache.Cache) (mails : List Mail)
      → cache.get now key c ≡ none
      → Held c mails
      → Held (cache.set now key tt cooldown_seconds c) mails
  Held-set now key c [] missing h = tt
  Held-set now key c (n ∷ mails) missing (h, hs) = (
    λ t soon. elim (Bool-cases (str_eq key (key_of n))) [
      | inl same ↦
          let e : key ≡ key_of n = (eq_iff key (key_of n)).0 same in
          rw (← e) (laws.get_until t now cooldown_seconds key tt c (later now t n e missing h soon))
      | inr differs ↦
          laws.get-set_other t now cooldown_seconds key (key_of n) tt c
            (λ e. cc ((eq_iff key (key_of n)).1 e, differs))
          ∙ h t soon
    ],
    Held-set now key c mails missing hs,
  )
    where
      later :
          (now t : ℕ) (n : Mail)
          → key ≡ key_of n
          → cache.get now key c ≡ none
          → ((t : ℕ) → t < n.sent_at + cooldown_seconds → cache.get t (key_of n) c ≡ some tt)
          → t < n.sent_at + cooldown_seconds
          → t < now + cooldown_seconds
      later now t n e missing h soon = elim (Bool-cases (leb (n.sent_at + cooldown_seconds) now)) [
        | inl over ↦ ground arith
        | inr during ↦
            let held : cache.get now key c ≡ some tt = rw e (h now (ground arith)) in
            cc (held, missing)
      ]

  fresh-After :
      (now : ℕ) (mail : Mail) (c : cache.Cache) (mails : List Mail)
      → mail.sent_at ≡ now
      → cache.get now (key_of mail) c ≡ none
      → Held c mails
      → After mail mails
  fresh-After now mail c [] at missing h = tt
  fresh-After now mail c (n ∷ mails) at missing (h, hs) = (
    λ mesh device channel detector. elim (Bool-cases (leb (n.sent_at + cooldown_seconds) now)) [
      | inl over ↦ ground arith
      | inr during ↦
          let e : key_of n ≡ key_of mail = rw (mesh, device, channel, detector) refl in
          let held : cache.get now (key_of mail) c ≡ some tt = rw (← e) (h now (ground arith)) in
          cc (held, missing)
    ],
    fresh-After now mail c mails at missing hs,
  )

  notify-IsSpaced :
      (now : ℕ) (mail : Mail) (reachable : Bool) (m : Mailer cache cooldown_seconds)
      → mail.sent_at ≡ now
      → IsSpaced m
      → IsSpaced (notify cache cooldown_seconds now (key_of mail) mail reachable m)
  notify-IsSpaced now mail false m at s = s
  notify-IsSpaced now mail true m at s =
      elim (Option-cases (cache.get now (key_of mail) m.cooldowns)) [
        | inl missing ↦
            rw (laws.add-missing now cooldown_seconds (key_of mail) tt m.cooldowns missing)
              (record {
                held = (
                  λ t soon.
                      laws.get_until t now cooldown_seconds (key_of mail) tt m.cooldowns
                        (rw at at soon),
                  Held-set now (key_of mail) m.cooldowns m.mails missing s.held,
                );
                apart = (fresh-After now mail m.cooldowns m.mails at missing s.held, s.apart);
              })
        | inr (v, present) ↦
            rw (laws.add-present now cooldown_seconds (key_of mail) tt v m.cooldowns present)
              (record { held = s.held; apart = s.apart })
      ]

  handle-IsSpaced :
      (now : ℕ) (w : World) (e : AlarmEvent) (m : Mailer cache cooldown_seconds)
      → IsSpaced m
      → IsSpaced (handle_alarm cache cooldown_seconds now w e m)
  unfolding handle_alarm
  handle-IsSpaced now w e m s = routed e.detector e.mesh_id e.device_id
    where
      to_owner :
          (detector mesh_id : String) (device_id : ℕ) (d : Device) (owner : Option Owner)
          → d.mesh_id ≡ mesh_id
          → d.device_id ≡ device_id
          → IsSpaced (alarm_owner cache cooldown_seconds now e detector mesh_id device_id d owner m)
      to_owner detector mesh_id device_id d none mesh number = s
      to_owner detector mesh_id device_id d (some owner) mesh number =
          rw (← mesh, ← number)
            (notify-IsSpaced now (mail_for cache cooldown_seconds now e detector d owner) _ m refl
              s)

      of_device :
          (detector mesh_id : String) (device_id : ℕ) (d : Option Device)
          → device_of mesh_id device_id w ≡ d
          → IsSpaced (alarm_device cache cooldown_seconds now w e detector mesh_id device_id d m)
      of_device detector mesh_id device_id none found = s
      of_device detector mesh_id device_id (some d) found =
          let (_, h) =
            In-find (λ (x : Device). str_eq x.mesh_id mesh_id && x.device_id == device_id) d
              w.devices found in
          to_owner detector mesh_id device_id d (owner_in w (mesh_by_pk d.mesh_id w.meshes))
            ((eq_iff d.mesh_id mesh_id).0 (ground arith)) (ground arith)

      routed :
          (detector mesh_id : Option String) (device_id : Option ℕ)
          → IsSpaced (route cache cooldown_seconds now w e detector mesh_id device_id m)
      routed none mesh_id device_id = s
      routed (some detector) none device_id = s
      routed (some detector) (some mesh_id) none = s
      routed (some detector) (some mesh_id) (some device_id) =
          elim (Bool-cases (str_eq detector "" || str_eq mesh_id "")) [
            | inl blank ↦ rw blank s
            | inr given ↦
                rw given (of_device detector mesh_id device_id (device_of mesh_id device_id w) refl)
          ]

  loop-IsSpaced :
      (alarms : List (ℕ × World × AlarmEvent)) (m : Mailer cache cooldown_seconds)
      → IsSpaced m
      → IsSpaced (consume_alarms cache cooldown_seconds alarms m)
  unfolding consume_alarms
  loop-IsSpaced [] m s = s
  loop-IsSpaced ((now, w, e) ∷ alarms) m s = loop-IsSpaced alarms _ (handle-IsSpaced now w e m s)

  -- With a cache that keeps an entry until its timeout: whatever alarms are read, at whatever times,
  -- and however the tables change in between, two mails about the same device (mesh and number),
  -- channel and detector are at least the cooldown apart.
  pub consume_alarms-Apart :
      (alarms : List (ℕ × World × AlarmEvent)) (c : cache.Cache)
      → Apart
          (consume_alarms cache cooldown_seconds alarms
            (record { cooldowns = c; mails = [] })).mails
  consume_alarms-Apart alarms c =
      let s =
        loop-IsSpaced alarms (record { cooldowns = c; mails = [] })
          (record { held = tt; apart = tt }) in
      s.apart
