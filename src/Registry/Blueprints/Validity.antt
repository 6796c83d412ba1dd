-- ===== src/Registry/Blueprints/Validity.antt =====
-- What the blueprint views keep of the tables.
use meshtastic_things.Prelude.{
  String, Bool, true, false, not, ◌≡◌, refl, ◌∙◌, inl, inr, Option, none, some, List, [], ◌∷◌, ◌++◌,
  arith, str_eq, eq_iff, Bool-cases, or_default,
}
use meshtastic_things.Prelude.Members.{In, In-append, In-append_left, In-map, In-select_of}
use meshtastic_things.Table.{save_row, delete_row, clashes_with, pk_taken}
use meshtastic_things.Table.Laws.{
  IsUnique, IsKeyed, In-save_row, IsUnique-save_row, IsKeyed-save_row, IsUnique-append,
  IsKeyed-append, In-delete_row, save_row-In,
}
use meshtastic_things.Registry.Models.{Owner, Device, Step, Blueprint, World}
use meshtastic_things.Registry.Requests.Ends.{
  Ends, Ends-respond, Ends-ensure, Ends-gets, Ends-write, Ends-bind_write, Ends-either,
}
use meshtastic_things.Registry.Access.Rules.{Ends-verified}
use meshtastic_things.Registry.Blueprints.Rules.{Ends-blueprint, Ends-blueprint_ownership}
use meshtastic_things.Registry.Blueprints.{
  blueprint_pk, same_name, BlueprintCreate, BlueprintUpdate, validate_steps, validate_given,
  updated_blueprint, without_blueprint, delete_blueprint, blueprint_create, blueprint_put,
  blueprint_delete, BlueprintRequest, post_blueprint, put_blueprint, drop_blueprint,
  handle_blueprint,
}

same_name_sym : (b c : Blueprint) → same_name b c ≡ same_name c b
same_name_sym b c = ground (
  arith,
  eq_iff b.owner_id c.owner_id,
  eq_iff c.owner_id b.owner_id,
  eq_iff b.name c.name,
  eq_iff c.name b.name,
)

module _ (validate_step : Step → Bool) where
  -- Each blueprint has valid steps, one at least, of different orders; the keys differ, and so do the
  -- names of one owner's blueprints; the blueprint of a device exists.
  pub record BlueprintsAreValid (w : World) : Type 0 where
    pub steps : (b : Blueprint) → In b w.blueprints → validate_steps validate_step b.steps ≡ true
    pub keys : IsKeyed blueprint_pk w.blueprints
    pub names : IsUnique blueprint_pk same_name w.blueprints
    pub references :
        (d : Device)
        → In d w.devices
        → (id : String) → d.postprocessing_blueprint_id ≡ some id
        → (b : Blueprint) × In b w.blueprints × (b.id ≡ id)

  module _ (caller : Option Owner) where
    create-Valid :
        (id : String) (request : BlueprintCreate) (w : World)
        → BlueprintsAreValid w
        → Ends BlueprintsAreValid
            (λ _. BlueprintsAreValid)
            (blueprint_create validate_step caller id request w)
    unfolding blueprint_create
    create-Valid id request w v = Ends-verified caller _ w v λ user _ _.
        Ends-ensure _ w _ _ v λ valid. Ends-gets _ w _ (
          Ends-ensure _ w _ _ v λ fresh_name. Ends-ensure _ w _ _ v λ fresh_id.
            Ends-bind_write _ w _
              (Ends-respond _ _ (added user valid (ground arith) (ground arith))))
      where
        new : Owner → Blueprint
        new user = record {
          id = id;
          name = request.name;
          description = request.description;
          owner_id = user.id;
          steps = request.steps;
        }

        added :
            (user : Owner)
            → validate_steps validate_step request.steps ≡ true
            → clashes_with blueprint_pk same_name (new user) w.blueprints ≡ false
            → pk_taken blueprint_pk (new user) w.blueprints ≡ false
            → BlueprintsAreValid (record w { blueprints = w.blueprints ++ new user ∷ [] })
        added user valid fresh_name fresh_id = record {
          steps = λ b i. elim (In-append b w.blueprints (new user ∷ []) i) [
            | inl old ↦ v.steps b old
            | inr (inl e) ↦ rw e valid
            | inr (inr nothing) ↦ absurd nothing
          ];
          keys = IsKeyed-append blueprint_pk (new user) w.blueprints v.keys fresh_id;
          names =
              IsUnique-append blueprint_pk same_name (new user) w.blueprints same_name_sym v.names
                fresh_name fresh_id;
          references = λ d i r e.
              let (b, j, same) = v.references d i r e in
              (b, In-append_left b w.blueprints (new user ∷ []) j, same);
        }

    put-Valid :
        (id : String) (u : BlueprintUpdate) (w : World)
        → BlueprintsAreValid w
        → Ends BlueprintsAreValid
            (λ _. BlueprintsAreValid)
            (blueprint_put validate_step caller id u w)
    unfolding blueprint_put updated_blueprint
    put-Valid id u w v = Ends-verified caller _ w v λ user _ _. Ends-blueprint id _ w v λ b i _.
        Ends-blueprint_ownership b user _ w v λ _. Ends-ensure _ w _ _ v λ valid. Ends-gets _ w _ (
          Ends-ensure _ w _ _ v λ fresh_name.
            Ends-bind_write _ w _ (Ends-respond _ _ (saved b i (sound b i valid) (ground arith))))
      where
        sound :
            (b : Blueprint)
            → In b w.blueprints
            → validate_given validate_step u.steps ≡ true
            → validate_steps validate_step (updated_blueprint u b).steps ≡ true
        sound b i valid = given u.steps valid
          where
            given :
                (steps : Option (List Step))
                → validate_given validate_step steps ≡ true
                → validate_steps validate_step (or_default steps b.steps) ≡ true
            given none h = v.steps b i
            given (some steps) h = h

        saved :
            (b : Blueprint)
            → In b w.blueprints
            → validate_steps validate_step (updated_blueprint u b).steps ≡ true
            → clashes_with blueprint_pk same_name (updated_blueprint u b) w.blueprints ≡ false
            → BlueprintsAreValid (record w {
              blueprints = save_row blueprint_pk (updated_blueprint u b) w.blueprints;
            })
        saved b i valid fresh_name = record {
          steps = λ c j. elim (In-save_row blueprint_pk c (updated_blueprint u b) w.blueprints j) [
            | inl e ↦ rw e valid
            | inr (k, n) ↦ v.steps c k
          ];
          keys = IsKeyed-save_row blueprint_pk (updated_blueprint u b) w.blueprints v.keys;
          names =
              IsUnique-save_row blueprint_pk same_name (updated_blueprint u b) w.blueprints
                same_name_sym v.names fresh_name;
          references = λ d k r e.
              let (c, j, same) = v.references d k r e in
              let (c', j', same') =
                save_row-In blueprint_pk c (updated_blueprint u b) w.blueprints j in
              (c', j', same' ∙ same);
        }

    delete-Valid :
        (id : String) (w : World)
        → BlueprintsAreValid w
        → Ends BlueprintsAreValid
            (λ _. BlueprintsAreValid)
            (blueprint_delete validate_step caller id w)
    unfolding blueprint_delete delete_blueprint delete_row
    delete-Valid id w v = Ends-verified caller _ w v λ user _ _. Ends-blueprint id _ w v λ b i _.
        Ends-blueprint_ownership b user _ w v λ _. Ends-write _ _ (record {
          steps = λ c j. v.steps c (kept b c j).0;
          keys = λ c c' j j'. v.keys c c' (kept b c j).0 (kept b c' j').0;
          names = λ c c' j j'. v.names c c' (kept b c j).0 (kept b c' j').0;
          references = detached b;
        })
      where
        kept :
            (b c : Blueprint)
            → In c (delete_row blueprint_pk b.id w.blueprints)
            → In c w.blueprints × (str_eq c.id b.id ≡ false)
        kept b c j = In-delete_row blueprint_pk b.id c w.blueprints j

        other :
            (b : Blueprint) (r : Option String) (i : String)
            → without_blueprint b.id r ≡ some i
            → (r ≡ some i) × (str_eq i b.id ≡ false)
        other b none i h = cc
        other b (some r) i h = elim (Bool-cases (str_eq r b.id)) [
          | inl same ↦ cc (rw same at h)
          | inr differs ↦
              let h' : some r ≡ some i = rw differs at h in
              let e : r ≡ i = ground arith in (h', rw (← e) differs)
        ]

        detached :
            (b : Blueprint) (d : Device)
            → In d (delete_blueprint b.id w).devices
            → (i : String) → d.postprocessing_blueprint_id ≡ some i
            → (c : Blueprint) × In c (delete_row blueprint_pk b.id w.blueprints) × (c.id ≡ i)
        detached b d j i e =
            let (d', from, k) = In-map _ d w.devices j in
            let (r, n) = other b d'.postprocessing_blueprint_id i (rw from at e) in
            let (c, l, same) = v.references d' k i r in
            (
              c,
              In-select_of (λ (x : Blueprint). not (str_eq x.id b.id)) c w.blueprints l
                  (rw same (rw n refl)),
              same,
            )

    -- Every request on blueprints, of whichever caller, answered or refused, leaves tables with valid
    -- blueprints as tables with valid blueprints: each has at least one step, steps that fit their algorithms, and no order
    -- twice; no key is taken twice, no owner has two of one name, and no device points at a
    -- blueprint that is not there.
    pub handle_blueprint-Valid :
        (request : BlueprintRequest) (w : World)
        → BlueprintsAreValid w
        → BlueprintsAreValid (handle_blueprint validate_step caller request w)
    unfolding handle_blueprint
    handle_blueprint-Valid (post_blueprint id request) w v =
        Ends-either _ (create-Valid id request w v)
    handle_blueprint-Valid (put_blueprint id u) w v = Ends-either _ (put-Valid id u w v)
    handle_blueprint-Valid (drop_blueprint id) w v = Ends-either _ (delete-Valid id w v)
