-- ===== src/Patterns.antt =====
-- flink/pattern_detection_job.py: the numeric fields of a message, one by one, and the detectors that
-- run on the last readings of each node's field, under the rules of a broadcast stream. The arithmetic
-- of Python's numbers and its formatting of values are a parameter. An observation's number is in the
-- range of floats, and a rule's key is a text; the text and the time of an alarm are left out.

pub mod History
use meshtastic_things.Prelude.{
  ℕ, String, Bool, true, false, not, ◌&&◌, Option, none, some, List, [], ◌∷◌, ◌++◌, fstring, str_eq,
  or_default, if◌then◌else◌,
}
use meshtastic_things.Json.{Value, null, boolean, number, text, array, dict, Fields, get, truthy}
use meshtastic_things.Dict.{Dict, empty, put, remove}
use meshtastic_things.Channels.{numeric_leaves}
use meshtastic_things.Quality.Detectors.{last_values, stuck_value_triggered, range_check_triggered}

pub record Arithmetic (N : Type 0) : Type 0 where
  pub equal : N → N → Bool
  pub less : N → N → Bool
  pub is_zero : N → Bool
  pub to_float : N → N
  pub of_bool : Bool → N
  pub shown : Value N → String

-- RECENT_VALUES_WINDOW
abbrev pub recent_values_window : ℕ
recent_values_window = 5

-- An absent key and a null are both `null` in `node_id` and `time`.
pub record Observation (N : Type 0) : Type 0 where
  pub node_id : Value N
  pub field : String
  pub value : N
  pub time : Value N

pub record Alarm (N : Type 0) : Type 0 where
  pub node_id : Value N
  pub field : String
  pub detector : String
  pub value : N

-- A parsed event of the rules topic: `none` for an absent key.
pub record RuleEvent (N : Type 0) : Type 0 where
  pub key : Option String
  pub op : Option String
  pub detector_name : Option (Value N)
  pub params : Option (Value N)

-- What RULES_STATE holds of a key.
pub record Rule (N : Type 0) : Type 0 where
  pub detector_name : Value N
  pub params : Value N

-- `recent-values` of each key, and RULES_STATE.
pub record State (N : Type 0) : Type 0 where
  pub recent_values : String → List N
  pub rules : Dict (Rule N)

unfoldable pub start : {N : Type 0} → State N
start = record { recent_values = λ k. []; rules = empty }

module _ {N : Type 0} (py : Arithmetic N) where
  abbrev observations : Value N → Value N → List (String × N) → List (Observation N)
  observations node_id time [] = []
  observations node_id time ((f, n) ∷ leaves) =
      record { node_id = node_id; field = f; value = n; time = time }
      ∷ observations node_id time leaves

  -- `event.get("payload") or {}`, walked: `none` where it raises.
  abbrev walked : Value N → Option (List (String × N))
  walked (dict fields) = some (numeric_leaves fields)
  walked v = if truthy py.is_zero v then none else some []

  -- ExplodeFields.flat_map, of a message that is a dictionary.
  unfoldable pub flat_map : Fields N → Option (List (Observation N))
  unfolding get numeric_leaves
  flat_map event = elim (walked (or_default (get "payload" event) null)) [
    | none ↦ none
    | some leaves ↦ some (
        observations (or_default (get "node_id" event) null) (or_default (get "rx_time" event) null)
          leaves)
  ]

  -- ObservationKeySelector.get_key
  unfoldable pub get_key : Observation N → String
  get_key o = fstring (py.shown o.node_id ∷ ":" ∷ o.field ∷ [])

  -- A limit of a rule, as it is compared with a number: none where there is no limit. The comparison
  -- with anything else raises.
  abbrev bound : Option (Value N) → Option (Option N)
  bound none = some none
  bound (some null) = some none
  bound (some (boolean b)) = some (some (py.of_bool b))
  bound (some (number n)) = some (some n)
  bound (some _) = none

  abbrev range_alarm : N → Option (Value N) → Option (Value N) → Option Bool
  range_alarm value min max = elim (bound min) [
    | none ↦ none
    | some low ↦
        if range_check_triggered py.less value low none then some true else (elim (bound max) [
          | none ↦ none
          | some high ↦ some (range_check_triggered py.less value low high)
        ])
  ]

  abbrev params_alarm : N → Value N → Option Bool
  params_alarm value (dict fields) = range_alarm value (get "min" fields) (get "max" fields)
  params_alarm value _ = none

  abbrev is_range_check : Value N → Bool
  is_range_check (text s) = str_eq s "range_check"
  is_range_check _ = false

  -- Whether the rule of a key gives an alarm; `none` where it raises.
  unfoldable pub rule_triggered : Option (Rule N) → N → Option Bool
  unfolding get range_check_triggered
  rule_triggered none value = some false
  rule_triggered (some r) value =
      if is_range_check r.detector_name then params_alarm value r.params else some false

  abbrev alarm_if : Bool → Observation N → String → List (Alarm N)
  alarm_if false o detector = []
  alarm_if true o detector =
      record { node_id = o.node_id; field = o.field; detector = detector; value = o.value } ∷ []

  -- The alarms that an observation yields, given whether its value is stuck, and whether the generator
  -- ends without an exception.
  abbrev pub alarms_with : Bool → Option (Rule N) → Observation N → List (Alarm N) × Bool
  alarms_with stuck rule o =
      let first = alarm_if stuck o "stuck_value" in
      elim (rule_triggered rule o.value) [
        | none ↦ (first, false)
        | some b ↦ (first ++ alarm_if b o "range_check", true)
      ]

  -- The same, given the recent values with the observation's own.
  abbrev pub alarms_of : List N → Option (Rule N) → Observation N → List (Alarm N) × Bool
  alarms_of recent rule o =
      alarms_with (stuck_value_triggered py.equal recent_values_window recent) rule o

  abbrev set_recent : String → List N → (String → List N) → String → List N
  set_recent key values recent k = if str_eq key k then values else recent k

  abbrev pub recent_with : Observation N → State N → List N
  recent_with o s =
      last_values py.equal recent_values_window
        (s.recent_values (get_key o) ++ py.to_float o.value ∷ [])

  -- DetectPatterns.process_element
  unfoldable pub process_element : Observation N → State N → State N × (List (Alarm N) × Bool)
  unfolding get_key rule_triggered stuck_value_triggered
  process_element o s =
      let recent = recent_with o s in
      (
        record s { recent_values = set_recent (get_key o) recent s.recent_values },
        alarms_of recent (s.rules (get_key o)) o,
      )

  abbrev pub is_delete : RuleEvent N → Bool
  is_delete e = str_eq (or_default e.op "") "delete"

  abbrev pub rule_of : RuleEvent N → Rule N
  rule_of e = record {
    detector_name = or_default e.detector_name (text "range_check");
    params = or_default e.params (dict Fields.end);
  }

  abbrev put_rule : String → RuleEvent N → Dict (Rule N) → Dict (Rule N)
  put_rule key e rules =
      if str_eq key ""
      then rules
      else if is_delete e
      then remove key rules
      else put key (rule_of e) rules

  abbrev pub with_rule : Option String → RuleEvent N → Dict (Rule N) → Dict (Rule N)
  with_rule none e rules = rules
  with_rule (some key) e rules = put_rule key e rules

  -- DetectPatterns.process_broadcast_element
  unfoldable pub process_broadcast_element : RuleEvent N → State N → State N
  process_broadcast_element e s = record s { rules = with_rule e.key e s.rules }

  -- What reaches the operator, in any order.
  pub data Input : Type 0 where
    observed : Observation N → Input
    ruled : RuleEvent N → Input

  abbrev pub then_run : List (Alarm N) × Bool → List (Alarm N) × Bool → List (Alarm N) × Bool
  then_run (alarms, true) (later, ok) = (alarms ++ later, ok)
  then_run (alarms, false) later = (alarms, false)

  -- The alarms of a run: up to the first exception, which fails the job.
  unfoldable pub run : List Input → State N → List (Alarm N) × Bool
  unfolding process_element process_broadcast_element
  run [] s = ([], true)
  run (observed o ∷ inputs) s = let (s', now) = process_element o s in then_run now (run inputs s')
  run (ruled e ∷ inputs) s = run inputs (process_broadcast_element e s)
