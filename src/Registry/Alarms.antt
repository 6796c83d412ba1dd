-- ===== src/Registry/Alarms.antt =====
-- management/commands/consume_quality_alarms.py: an alarm becomes a mail to the owner of the device,
-- unless one for the same channel and detector has been sent a short while ago. Of a mail the
-- device, the channel, the detector, the address and the subject are kept; a mail that is not
-- delivered counts.
pub mod Cooldown
use meshtastic_things.Prelude.{
  ℕ, String, Bool, true, false, not, ◌&&◌, ◌||◌, Option, none, some, List, [], ◌∷◌, find, show,
  fstring, str_eq, ◌==◌, or_default, if◌then◌else◌,
}
use meshtastic_things.Cache.{CacheOf}
use meshtastic_things.Registry.Models.{Owner, Mesh, Device, World, mesh_by_pk, owner_by_pk}

-- A parsed event: `none` for an absent key or a null.
pub record AlarmEvent : Type 0 where
  pub detector : Option String
  pub mesh_id : Option String
  pub device_id : Option ℕ
  pub channel : Option String
  pub message : Option String

-- A mail: when it is sent, the device's row (mesh and number), the channel and the detector that it is
-- about, the address and the subject.
pub record Mail : Type 0 where
  pub sent_at : ℕ
  pub mesh_id : String
  pub device_id : ℕ
  pub channel : Option String
  pub detector : String
  pub to_email : String
  pub subject : String

-- DETECTOR_SUBJECTS
abbrev pub detector_subjects : List (String × String)
detector_subjects =
    ("absence", "Device has stopped publishing")
    ∷ ("completeness", "Device readings have gaps")
    ∷ ("flat_value", "Sensor value is flat")
    ∷ ("plausibility", "Sensor value is out of range")
    ∷ []

abbrev subject_in : String → List (String × String) → String
subject_in detector [] = "Data quality alarm"
subject_in detector ((d, subject) ∷ subjects) =
    if str_eq d detector then subject else subject_in detector subjects

abbrev or_else : Option String → String → String
or_else none d = d
or_else (some s) d = if str_eq s "" then d else s

-- f"{channel}", of a channel that may be None.
abbrev shown : Option String → String
shown none = "None"
shown (some s) = s

unfoldable pub cooldown_key : String → ℕ → Option String → String → String
cooldown_key mesh_id device_id channel detector = fstring (
    "keyapi:alarm-email:"
    ∷ mesh_id
    ∷ ":"
    ∷ show device_id
    ∷ ":"
    ∷ shown channel
    ∷ ":"
    ∷ detector
    ∷ [])

-- `device.mesh.owner`
abbrev pub owner_in : World → Option Mesh → Option Owner
owner_in w none = none
owner_in w (some mesh) = owner_by_pk mesh.owner_id w.owners

-- The rows are in the order of their keys, by which `first` takes them.
abbrev pub device_of : String → ℕ → World → Option Device
device_of mesh_id device_id w =
    find (λ (d : Device). str_eq d.mesh_id mesh_id && d.device_id == device_id) w.devices

module _ (cache : CacheOf (Unit {0})) (cooldown_seconds : ℕ) where
  open cache use {Cache, add}

  -- The cache, and the mails sent so far, the last first.
  pub record Mailer : Type 0 where
    pub cooldowns : Cache
    pub mails : List Mail

  abbrev pub mail_if : Mail → Cache × Bool → Mailer → Mailer
  mail_if mail (c, fresh) m = record {
    cooldowns = c;
    mails = if fresh then mail ∷ m.mails else m.mails;
  }

  abbrev pub mail_for : ℕ → AlarmEvent → String → Device → Owner → Mail
  mail_for now e detector d owner = record {
    sent_at = now;
    mesh_id = d.mesh_id;
    device_id = d.device_id;
    channel = e.channel;
    detector = detector;
    to_email = owner.email;
    subject = fstring (
        "[Meshtastic] "
        ∷ subject_in detector detector_subjects
        ∷ " - "
        ∷ or_else d.label (or_else d.name (show d.device_id))
        ∷ []);
  }

  -- Of an alarm of a known device, to its owner, unless the cache has the key.
  abbrev pub notify : ℕ → String → Mail → Bool → Mailer → Mailer
  notify now key mail reachable m =
      if reachable then mail_if mail (add now key tt cooldown_seconds m.cooldowns) m else m

  abbrev pub alarm_owner :
      ℕ → AlarmEvent → String → String → ℕ → Device → Option Owner → Mailer → Mailer
  alarm_owner now e detector mesh_id device_id d none m = m
  alarm_owner now e detector mesh_id device_id d (some owner) m =
      notify now (cooldown_key mesh_id device_id e.channel detector)
        (mail_for now e detector d owner) (not (str_eq owner.email "") && owner.is_active) m

  abbrev pub alarm_device :
      ℕ → World → AlarmEvent → String → String → ℕ → Option Device → Mailer → Mailer
  alarm_device now w e detector mesh_id device_id none m = m
  alarm_device now w e detector mesh_id device_id (some d) m =
      alarm_owner now e detector mesh_id device_id d (owner_in w (mesh_by_pk d.mesh_id w.meshes)) m

  abbrev pub route :
      ℕ → World → AlarmEvent → Option String → Option String → Option ℕ → Mailer → Mailer
  route now w e (some detector) (some mesh_id) (some device_id) m =
      if str_eq detector "" || str_eq mesh_id ""
      then m
      else alarm_device now w e detector mesh_id device_id (device_of mesh_id device_id w) m
  route now w e _ _ _ m = m

  -- `_handle`
  unfoldable pub handle_alarm : ℕ → World → AlarmEvent → Mailer → Mailer
  unfolding cooldown_key
  handle_alarm now w e m = route now w e e.detector e.mesh_id e.device_id m

  -- The alarms of the topic, each at its time, with the tables as they are then.
  unfoldable pub consume_alarms : List (ℕ × World × AlarmEvent) → Mailer → Mailer
  unfolding handle_alarm
  consume_alarms [] m = m
  consume_alarms ((now, w, e) ∷ alarms) m = consume_alarms alarms (handle_alarm now w e m)
