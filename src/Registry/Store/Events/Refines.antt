-- ===== src/Registry/Store/Events/Refines.antt =====
-- The events of the SQL store against a function from keys to specs.
use event_spec.Prelude.{
  ℕ, ◌≡◌, refl, ap, sym, ◌∙◌, ◌↔◌, inl, inr, Bool, true, false, ◌&&◌, List, [], ◌∷◌, Option, none,
  some, String, Text, text_eq, text_eq_iff, arith, Bool-cases, eq_iff, if-ap, if-if, ◌==◌,
  if◌then◌else◌,
}
use event_spec.Spec.Schema.{EventDef}
use event_spec.Registry.Store.{
  Codec, Engine, querying, parsing, writing, Reply, reply, failed, EventRow, Database, is_key,
}
use event_spec.Registry.Store.Events.{
  find_row, default_status, new_row, upsert, publish_doc, read_row, get_event, publish_event,
}

-- What a client sees of the events: the answer at each key.
abbrev pub View : Type 0
View = String → String → Text → Reply EventDef

unfoldable pub has_event_key : EventDef → String → String → Text → Bool
has_event_key e namespace name version =
    (e.namespace == namespace) && ((e.name == name) && text_eq e.version version)

pub has_event_key_iff :
    (e : EventDef) (namespace name : String) (version : Text)
    → (has_event_key e namespace name version ≡ true)
      ↔ ((e.namespace ≡ namespace) × (e.name ≡ name) × (e.version ≡ version))
unfolding has_event_key
has_event_key_iff e namespace name version =
    ground (arith, eq_iff e.namespace namespace, eq_iff e.name name, text_eq_iff e.version version)

module _ {Doc : Type 0} where
  pub is_key_iff :
      (namespace name : String) (version : Text) (row : EventRow Doc)
      → (is_key namespace name version row ≡ true)
        ↔ ((row.namespace ≡ namespace) × (row.name ≡ name) × (row.version ≡ version))
  unfolding is_key
  is_key_iff namespace name version row =
      ground (
        arith,
        eq_iff row.namespace namespace,
        eq_iff row.name name,
        text_eq_iff row.version version,
      )

  -- Rows with the key of the event answer to the same keys as the event.
  is_key-has_event_key :
      (e : EventDef) (row : EventRow Doc)
      → is_key e.namespace e.name e.version row ≡ true
      → (namespace name : String) (version : Text)
      → is_key namespace name version row ≡ has_event_key e namespace name version
  unfolding is_key has_event_key
  is_key-has_event_key e row same namespace name version =
      let (a, b, c) = (is_key_iff e.namespace e.name e.version row).0 same in rw (a, b, c) refl

  new_row-key :
      (engine : Engine) (e : EventDef) (doc : Doc) (namespace name : String) (version : Text)
      → is_key namespace name version (new_row engine e doc)
        ≡ has_event_key e namespace name version
  unfolding is_key has_event_key new_row
  new_row-key engine e doc namespace name version = refl

  updated_row-key :
      (e : EventDef) (doc : Doc) (row : EventRow Doc) (namespace name : String) (version : Text)
      → is_key namespace name version
          (record row { status = e.status; spec_yaml = doc; changelog = e.changelog })
        ≡ is_key namespace name version row
  unfolding is_key
  updated_row-key e doc row namespace name version = refl

  is_key-other :
      (e : EventDef) (row : EventRow Doc) (namespace name : String) (version : Text)
      → is_key e.namespace e.name e.version row ≡ false
      → is_key namespace name version row ≡ true
      → has_event_key e namespace name version ≡ false
  is_key-other e row namespace name version other here =
      let (a, b, c) = (is_key_iff namespace name version row).0 here in
      elim (Bool-cases (has_event_key e namespace name version)) [
        | inr no_key ↦ no_key
        | inl key ↦
            let (p, q, r) = (has_event_key_iff e namespace name version).0 key in
            absurd cc (
              (is_key_iff e.namespace e.name e.version row).1 (a ∙ sym p, b ∙ sym q, c ∙ sym r),
              other,
            )
      ]

module _ {Doc : Type 0} (yaml : Codec EventDef Doc) where
  abbrev read_doc : Doc → Reply EventDef
  read_doc doc = elim (yaml.unmarshal doc) [ none ↦ failed parsing | some def ↦ reply def ]

  -- What each key reads after an upsert: the new document at the key of the event.
  find_row-upsert :
      (engine : Engine) (e : EventDef) (doc : Doc) (rows : List (EventRow Doc))
      → (namespace name : String) (version : Text)
      → read_row yaml (find_row namespace name version (upsert engine e doc rows)) ≡ (
          if has_event_key e namespace name version
          then read_doc doc
          else read_row yaml (find_row namespace name version rows))
  unfolding find_row upsert read_row new_row
  find_row-upsert engine e doc [] namespace name version =
      rw (sym (new_row-key engine e doc namespace name version))
        (elim (Bool-cases (is_key namespace name version (new_row engine e doc))) [
          | inl here ↦ rw here refl
          | inr there ↦ rw there refl
        ])
  find_row-upsert engine e doc (row ∷ rows) namespace name version =
      elim (Bool-cases (is_key e.namespace e.name e.version row)) [
        | inl same ↦
            rw
              (
                same,
                updated_row-key e doc row namespace name version,
                is_key-has_event_key e row same namespace name version,
              )
              (elim (Bool-cases (has_event_key e namespace name version)) [
                | inl key ↦ rw key refl
                | inr no_key ↦ rw no_key refl
              ])
        | inr other ↦ elim (Bool-cases (is_key namespace name version row)) [
          | inl here ↦ rw (other, here, is_key-other e row namespace name version other here) refl
          | inr there ↦ rw (other, there) (find_row-upsert engine e doc rows namespace name version)
        ]
      ]

  unfoldable pub view : Database Doc → View
  view db namespace name version = read_row yaml (find_row namespace name version db.events)

  -- The same call on the view: a write that the engine takes changes the answer at one key, to what
  -- YAML keeps of the event; any other call changes nothing.
  unfoldable pub apply_doc : Engine → EventDef → Option Doc → View → View
  apply_doc engine e none view = view
  apply_doc engine e (some doc) view = λ namespace name version.
      if engine.on_write && has_event_key e namespace name version
      then reply (yaml.stored e)
      else view namespace name version

  unfoldable pub apply : Engine → EventDef → View → View
  apply engine e view = apply_doc engine (default_status e) (yaml.marshal (default_status e)) view

  read_back :
      (e : EventDef) (doc : Doc) → yaml.marshal e ≡ some doc → read_doc doc ≡ reply (yaml.stored e)
  read_back e doc is_doc = rw (read_doc, yaml.reads_back e doc is_doc) refl

  publish_doc-apply_doc :
      (engine : Engine) (e : EventDef) (user_id : String) (db : Database Doc) (m : Option Doc)
      → yaml.marshal e ≡ m
      → (namespace name : String) (version : Text)
      → view (publish_doc engine e user_id m db).1 namespace name version
        ≡ apply_doc engine e m (view db) namespace name version
  unfolding publish_doc apply_doc view
  publish_doc-apply_doc engine e user_id db none is_doc namespace name version = refl
  publish_doc-apply_doc engine e user_id db (some doc) is_doc namespace name version =
      let at : Reply Unit × Database Doc → Reply EventDef = λ r. view r.1 namespace name version in
      let old = view db namespace name version in
      let upserted =
        find_row-upsert engine e doc db.events namespace name version
        ∙ ap (λ d. if has_event_key e namespace name version then d else old)
            (read_back e doc is_doc) in
      if-ap at engine.on_write _ (failed writing, db)
      ∙ (ap (λ x. if engine.on_write then x else old) upserted
          ∙ if-if engine.on_write (has_event_key e namespace name version) (reply (yaml.stored e))
              old)

  pub publish_event-apply :
      (engine : Engine) (e : EventDef) (user_id : String) (db : Database Doc)
      → (namespace name : String) (version : Text)
      → view (publish_event yaml engine e user_id db).1 namespace name version
        ≡ apply engine e (view db) namespace name version
  unfolding publish_event apply
  publish_event-apply engine e user_id db =
      publish_doc-apply_doc engine (default_status e) user_id db (yaml.marshal (default_status e))
        refl

-- One call of PublishEvent, with what the engine does in it.
pub record Publication : Type 0 where
  pub engine : Engine
  pub event : EventDef
  pub user_id : String

module _ {Doc : Type 0} (yaml : Codec EventDef Doc) where
  unfoldable pub publish_all : List Publication → Database Doc → Database Doc
  publish_all [] db = db
  publish_all (p ∷ ps) db = publish_all ps (publish_event yaml p.engine p.event p.user_id db).1

  unfoldable pub replay : List Publication → View → View
  replay [] s = s
  replay (p ∷ ps) s = replay ps (apply yaml p.engine p.event s)

  view-publish_all :
      (ps : List Publication) (db : Database Doc)
      → view yaml (publish_all ps db) ≡ replay ps (view yaml db)
  unfolding publish_all replay
  view-publish_all [] db = refl
  view-publish_all (p ∷ ps) db =
      view-publish_all ps (publish_event yaml p.engine p.event p.user_id db).1
      ∙ ap (replay ps) (λ i namespace name version.
        publish_event-apply yaml p.engine p.event p.user_id db namespace name version i)

  -- The events table refines a function from keys to specs: after any sequence of PublishEvent, with
  -- failures of the engine at any of its statements, GetEvent with a version answers what the same
  -- sequence of assignments to the function gives, where an assignment happens exactly when the YAML
  -- is written and the upsert succeeds; when its own query fails it answers that error.
  pub get_event-publish_all :
      (ps : List Publication) (db : Database Doc) (engine : Engine)
      → (namespace name : String) (c : ℕ) (version : Text)
      → get_event yaml engine namespace name (c ∷ version) (publish_all ps db) ≡ (
          if engine.on_query
          then replay ps (view yaml db) namespace name (c ∷ version)
          else failed querying)
  unfolding get_event view
  get_event-publish_all ps db engine namespace name c version =
      ap (λ s. if engine.on_query then s namespace name (c ∷ version) else failed querying)
        (view-publish_all ps db)
