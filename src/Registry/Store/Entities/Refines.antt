-- ===== src/Registry/Store/Entities/Refines.antt =====
-- The methods on a table of named entities against a function from names to entities: a creation
-- assigns where the name is free, an update where it is taken, and a deletion makes it free.
use event_spec.Prelude.{
  ◌≡◌, refl, ap, sym, ◌∙◌, inl, inr, Bool, true, false, not, ◌&&◌, List, [], ◌∷◌, Option, none,
  some, String, Bool-cases, eq_iff, ◌==◌, if◌then◌else◌,
}
use event_spec.Registry.Store.{
  Codec, Engine, querying, writing, Reply, reply, missing, failed, EntityRow, AuditRow,
}
use event_spec.Registry.Store.Entities.{
  Entity, Written, parsed, named_row, is_named, unwritten, written, get_entity, create_doc,
  create_entity, update_found, update_doc, update_entity, delete_named, delete_entity,
}
use event_spec.Registry.Store.Entities.Rows.{
  View, named_row-is_named, is_missing, and_false, and_not, and_assoc, view, assign, view-none,
  is_missing-view, view-append, view-update_rows, view-delete_rows,
}

module _ {A Doc : Type 0} (entity : Entity A) (yaml : Codec A Doc) where
  -- What each method does to the function. A creation assigns where the name is free, an update where
  -- it is taken, and a deletion makes it free; none does anything when the YAML or a statement fails.
  unfoldable pub apply_create : Engine → A → Option Doc → View A → View A
  apply_create engine def none s = s
  apply_create engine def (some doc) s =
      let name = entity.name_of def in
      assign entity yaml (engine.on_write && is_missing (s name)) name (reply (yaml.stored def)) s

  unfoldable pub apply_update : Engine → A → Option Doc → View A → View A
  apply_update engine def none s = s
  apply_update engine def (some doc) s =
      let name = entity.name_of def in
      assign entity yaml (engine.on_query && (engine.on_write && not (is_missing (s name)))) name
        (reply (yaml.stored def)) s

  unfoldable pub apply_delete : Engine → String → View A → View A
  apply_delete engine name s = assign entity yaml engine.on_write name missing s

  -- A call that changes the table under a condition, and otherwise answers an error.
  view-if :
      (b same : Bool) (x : Written Doc) (answer : Reply Unit) (r : Reply A)
      → (rows : List (EntityRow Doc)) (log : List AuditRow) (name : String)
      → (b ≡ true → view entity yaml x.rows name ≡ (if same then r else view entity yaml rows name))
      → view entity yaml (if b then x else unwritten answer rows log).rows name
        ≡ (if b && same then r else view entity yaml rows name)
  unfolding unwritten
  view-if true same x answer r rows log name changes = changes refl
  view-if false same x answer r rows log name changes = refl

  -- what the name of an entity reads after a write of its YAML
  stored-if :
      (def : A) (doc : Doc) (b : Bool) (old : Reply A)
      → yaml.marshal def ≡ some doc
      → (if b then parsed (yaml.unmarshal doc) else old)
        ≡ (if b then reply (yaml.stored def) else old)
  unfolding parsed
  stored-if def doc b old is_doc = rw (yaml.reads_back def doc is_doc) refl

  view-create_doc :
      (engine : Engine) (def : A) (user_id : String) (m : Option Doc) (rows : List (EntityRow Doc))
      → (log : List AuditRow) → yaml.marshal def ≡ m
      → (name : String)
      → view entity yaml (create_doc entity yaml engine def user_id m rows log).rows name
        ≡ apply_create engine def m (view entity yaml rows) name
  unfolding create_doc apply_create written unwritten
  view-create_doc engine def user_id none rows log is_doc name = refl
  view-create_doc engine def user_id (some doc) rows log is_doc name =
      let new = entity.name_of def in
      let old = view entity yaml rows name in
      view-if (engine.on_write && not (is_named new rows)) (new == name) _ (failed writing)
        (reply (yaml.stored def)) rows log name
        (λ free.
          view-append entity yaml name rows engine new doc
            (and_not engine.on_write (is_named new rows) free)
          ∙ stored-if def doc (new == name) old is_doc)
      ∙ ap (λ t. if (engine.on_write && t) && (new == name) then reply (yaml.stored def) else old)
          (sym (is_missing-view entity yaml new rows))

  view-update_found :
      (engine : Engine) (def : A) (user_id : String) (doc : Doc) (rows : List (EntityRow Doc))
      → (log : List AuditRow) → yaml.marshal def ≡ some doc
      → (found : Option (EntityRow Doc)) → named_row (entity.name_of def) rows ≡ found
      → (name : String)
      → view entity yaml (update_found entity yaml engine def user_id doc found rows log).rows name
        ≡ assign entity yaml
            (engine.on_write && not (is_missing (view entity yaml rows (entity.name_of def))))
            (entity.name_of def)
            (reply (yaml.stored def))
            (view entity yaml rows)
            name
  unfolding update_found written unwritten is_missing
  view-update_found engine def user_id doc rows log is_doc none is_found name =
      let new = entity.name_of def in
      let gone : is_missing (view entity yaml rows new) ≡ true =
        ap is_missing (view-none entity yaml new rows is_found) in
      rw (gone, and_false engine.on_write) refl
  view-update_found engine def user_id doc rows log is_doc (some row) is_found name =
      let new = entity.name_of def in
      let old = view entity yaml rows name in
      view-if engine.on_write (not (is_missing (view entity yaml rows new)) && (new == name)) _
        (failed writing) (reply (yaml.stored def)) rows log name
        (λ _.
          view-update_rows entity yaml name rows engine new doc
          ∙ stored-if def doc (not (is_missing (view entity yaml rows new)) && (new == name)) old
              is_doc)
      ∙ ap (λ b. if b then reply (yaml.stored def) else old)
          (and_assoc engine.on_write (not (is_missing (view entity yaml rows new))) (new == name))

  view-update_doc :
      (engine : Engine) (def : A) (user_id : String) (m : Option Doc) (rows : List (EntityRow Doc))
      → (log : List AuditRow) → yaml.marshal def ≡ m
      → (name : String)
      → view entity yaml (update_doc entity yaml engine def user_id m rows log).rows name
        ≡ apply_update engine def m (view entity yaml rows) name
  unfolding update_doc apply_update unwritten
  view-update_doc engine def user_id none rows log is_doc name = refl
  view-update_doc engine def user_id (some doc) rows log is_doc name =
      let new = entity.name_of def in
      let there = engine.on_write && not (is_missing (view entity yaml rows new)) in
      view-if engine.on_query (there && (new == name)) _ (failed querying) (reply (yaml.stored def))
        rows log name
        (λ _.
          view-update_found engine def user_id doc rows log is_doc (named_row new rows) refl name)
      ∙ ap (λ b. if b then reply (yaml.stored def) else view entity yaml rows name)
          (and_assoc engine.on_query there (new == name))

  view-delete_named :
      (engine : Engine) (deleted user_id : String) (b : Bool) (rows : List (EntityRow Doc))
      → (log : List AuditRow) → is_named deleted rows ≡ b
      → (name : String)
      → view entity yaml (delete_named entity yaml engine deleted user_id b rows log).rows name
        ≡ (if deleted == name then missing else view entity yaml rows name)
  unfolding delete_named unwritten written
  view-delete_named engine deleted user_id true rows log there name =
      view-delete_rows entity yaml name rows deleted
  view-delete_named engine deleted user_id false rows log gone name =
      elim (Bool-cases (deleted == name)) [
        | inl same ↦
            rw
              (
                same,
                sym ((eq_iff deleted name).0 same),
                view-none entity yaml deleted rows (named_row-is_named deleted rows gone),
              )
              refl
        | inr differs ↦ rw differs refl
      ]

  view-delete_entity :
      (engine : Engine) (deleted user_id : String) (rows : List (EntityRow Doc))
      → (log : List AuditRow) → (name : String)
      → view entity yaml (delete_entity entity yaml engine deleted user_id rows log).rows name
        ≡ apply_delete engine deleted (view entity yaml rows) name
  unfolding delete_entity apply_delete
  view-delete_entity engine deleted user_id rows log name =
      view-if engine.on_write (deleted == name) _ (failed writing) missing rows log name
        (λ _. view-delete_named engine deleted user_id (is_named deleted rows) rows log refl name)

-- One call of a method that writes, with what the engine does in it.
pub data TableAction (A : Type 0) : Type 0 where
  create : A → TableAction A
  update : A → TableAction A
  delete : String → TableAction A

pub record TableCall (A : Type 0) : Type 0 where
  pub engine : Engine
  pub user_id : String
  pub action : TableAction A

module _ {A Doc : Type 0} (entity : Entity A) (yaml : Codec A Doc) where
  abbrev step : Engine → String → TableAction A → List (EntityRow Doc) → List AuditRow → Written Doc
  step engine user_id (create def) rows log = create_entity entity yaml engine def user_id rows log
  step engine user_id (update def) rows log = update_entity entity yaml engine def user_id rows log
  step engine user_id (delete name) rows log =
      delete_entity entity yaml engine name user_id rows log

  abbrev apply : Engine → TableAction A → View A → View A
  apply engine (create def) s = apply_create entity yaml engine def (yaml.marshal def) s
  apply engine (update def) s = apply_update entity yaml engine def (yaml.marshal def) s
  apply engine (delete name) s = apply_delete entity yaml engine name s

  unfoldable pub run :
      List (TableCall A) → List (EntityRow Doc) → List AuditRow → List (EntityRow Doc)
  run [] rows log = rows
  run (c ∷ calls) rows log =
      let w = step c.engine c.user_id c.action rows log in run calls w.rows w.log

  unfoldable pub replay : List (TableCall A) → View A → View A
  replay [] s = s
  replay (c ∷ calls) s = replay calls (apply c.engine c.action s)

  step-apply :
      (engine : Engine) (user_id : String) (action : TableAction A) (rows : List (EntityRow Doc))
      → (log : List AuditRow) (name : String)
      → view entity yaml (step engine user_id action rows log).rows name
        ≡ apply engine action (view entity yaml rows) name
  unfolding create_entity update_entity
  step-apply engine user_id (create def) rows log name =
      view-create_doc entity yaml engine def user_id (yaml.marshal def) rows log refl name
  step-apply engine user_id (update def) rows log name =
      view-update_doc entity yaml engine def user_id (yaml.marshal def) rows log refl name
  step-apply engine user_id (delete deleted) rows log name =
      view-delete_entity entity yaml engine deleted user_id rows log name

  view-run :
      (calls : List (TableCall A)) (rows : List (EntityRow Doc)) (log : List AuditRow)
      → view entity yaml (run calls rows log) ≡ replay calls (view entity yaml rows)
  unfolding run replay
  view-run [] rows log = refl
  view-run (c ∷ calls) rows log =
      let w = step c.engine c.user_id c.action rows log in
      view-run calls w.rows w.log
      ∙ ap (replay calls) (λ i name. step-apply c.engine c.user_id c.action rows log name i)

  -- A table of sources or of destinations refines a function from names to entities: after any
  -- sequence of creations, updates and deletions, with failures of the engine at any of their
  -- statements, a query by name answers what the same sequence of assignments to the function gives,
  -- where a creation assigns only where the name is free, an update only where it is taken, and each
  -- only when its YAML is written and its statements succeed; when the query itself fails it answers
  -- that error.
  pub get_entity-run :
      (calls : List (TableCall A)) (rows : List (EntityRow Doc)) (log : List AuditRow)
      (engine : Engine)
      → (name : String)
      → get_entity entity yaml engine name (run calls rows log)
        ≡ (if engine.on_query then replay calls (view entity yaml rows) name else failed querying)
  unfolding get_entity view
  get_entity-run calls rows log engine name =
      ap (λ s. if engine.on_query then s name else failed querying) (view-run calls rows log)
