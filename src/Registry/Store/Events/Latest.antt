-- ===== src/Registry/Store/Events/Latest.antt =====
-- GetEvent of the SQL store without a version, beside GetEvent of the local resolver.
use event_spec.Prelude.{
  ◌≡◌, refl, ap, sym, ◌∙◌, inl, inr, true, false, List, [], ◌∷◌, Option, none, some, String, All,
  keep, Bool-cases, Option-cases, if◌then◌else◌,
}
use event_spec.Spec.Schema.{EventDef}
use event_spec.Spec.Version.{parse_schema_ver}
use event_spec.Registry.Latest.{Best}
use event_spec.Registry.Local.{
  Found, found, not_found, is_candidate, improve, find_active, found_best,
}
use event_spec.Registry.Store.{
  Codec, Engine, querying, Reply, reply, missing, failed, EventRow, Database, is_key,
}
use event_spec.Registry.Store.Events.{
  is_active_row, default_status, new_row, upsert, publish_doc, publish_event, readable, newest_row,
  reply_best, get_event, add_read,
}
use event_spec.Registry.Store.Events.Refines.{is_key_iff}

some-inj : {A : Type 0} {a b : A} → some a ≡ some b → a ≡ b
some-inj h = cc

find_active-take :
    (namespace name : String) (def : EventDef) (defs : List EventDef) (best : Option Best)
    → is_candidate namespace name def ≡ true
    → find_active namespace name (def ∷ defs) best
      ≡ find_active namespace name defs (improve def (parse_schema_ver def.version) best)
unfolding find_active
find_active-take namespace name def defs best good = rw good refl

find_active-pass :
    (namespace name : String) (def : EventDef) (defs : List EventDef) (best : Option Best)
    → is_candidate namespace name def ≡ false
    → find_active namespace name (def ∷ defs) best ≡ find_active namespace name defs best
unfolding find_active
find_active-pass namespace name def defs best bad = rw bad refl

module _ {Doc : Type 0} (yaml : Codec EventDef Doc) where
  -- The columns of a row are those of the spec in it.
  abbrev pub IsTrue : EventRow Doc → Type 0
  IsTrue row =
      (def : EventDef)
      → yaml.unmarshal row.spec_yaml ≡ some def
      → (row.namespace ≡ def.namespace) × (row.name ≡ def.name) × (row.status ≡ def.status)

  abbrev pub AllTrue : Database Doc → Type 0
  AllTrue db = All IsTrue db.events

  is_active_row-is_candidate :
      (namespace name : String) (row : EventRow Doc) (def : EventDef)
      → IsTrue row
      → yaml.unmarshal row.spec_yaml ≡ some def
      → is_active_row namespace name row ≡ is_candidate namespace name def
  unfolding is_active_row is_candidate
  is_active_row-is_candidate namespace name row def h reads =
      let (a, b, c) = h def reads in rw (a, b, c) refl

  newest_row-find_active :
      (namespace name : String) (rows : List (EventRow Doc)) (best : Option Best)
      → All IsTrue rows
      → newest_row (readable yaml (keep (is_active_row namespace name) rows)) best
        ≡ find_active namespace name (readable yaml rows) best
  unfolding newest_row keep find_active readable add_read
  newest_row-find_active namespace name [] best h = refl
  newest_row-find_active namespace name (row ∷ rows) best (h, hs) =
      let step = λ (now : Option Best). newest_row-find_active namespace name rows now hs in
      elim (Option-cases (yaml.unmarshal row.spec_yaml)) [
        | inl corrupt ↦ elim (Bool-cases (is_active_row namespace name row)) [
          | inl active ↦ rw (active, corrupt) (step best)
          | inr other ↦ rw (other, corrupt) (step best)
        ]
        | inr (def, reads) ↦
            let same = is_active_row-is_candidate namespace name row def h reads in
            elim (Bool-cases (is_active_row namespace name row)) [
              | inl active ↦
                  rw (active, reads)
                    (step (improve def (parse_schema_ver def.version) best)
                      ∙ sym (
                          find_active-take namespace name def (readable yaml rows) best
                            (sym same ∙ active)))
              | inr other ↦
                  rw (other, reads)
                    (step best
                      ∙ sym (
                          find_active-pass namespace name def (readable yaml rows) best
                            (sym same ∙ other)))
            ]
      ]

  -- the answer of the resolver, as an answer of the store
  abbrev pub from_found : Found EventDef → Reply EventDef
  from_found not_found = missing
  from_found (found def) = reply def

  reply_best-found_best : (best : Option Best) → reply_best best ≡ from_found (found_best best)
  unfolding reply_best found_best
  reply_best-found_best none = refl
  reply_best-found_best (some best) = refl

  -- GetEvent of the SQL store without a version, when the columns of each row are those of the spec
  -- in it, answers what GetEvent of the local resolver answers on the specs that the rows hold, in
  -- the order of the rows; when the query fails it answers that error.
  pub get_event-find_active :
      (engine : Engine) (namespace name : String) (db : Database Doc)
      → AllTrue db
      → get_event yaml engine namespace name [] db ≡ (
          if engine.on_query
          then from_found (found_best (find_active namespace name (readable yaml db.events) none))
          else failed querying)
  unfolding get_event
  get_event-find_active engine namespace name db h =
      ap (λ x. if engine.on_query then x else failed querying)
        (ap reply_best (newest_row-find_active namespace name db.events none h)
          ∙ reply_best-found_best (find_active namespace name (readable yaml db.events) none))

  -- YAML keeps the three columns of the event.
  abbrev pub Keeps : EventDef → Type 0
  Keeps e =
      ((yaml.stored e).namespace ≡ e.namespace)
      × ((yaml.stored e).name ≡ e.name)
      × ((yaml.stored e).status ≡ e.status)

  stored-columns :
      (e def : EventDef) (doc : Doc)
      → Keeps e
      → yaml.marshal e ≡ some doc
      → yaml.unmarshal doc ≡ some def
      → (e.namespace ≡ def.namespace) × (e.name ≡ def.name) × (e.status ≡ def.status)
  stored-columns e def doc (a, b, c) is_doc reads =
      let same : yaml.stored e ≡ def = some-inj (sym (yaml.reads_back e doc is_doc) ∙ reads) in
      (
        sym a ∙ ap (λ x. x.namespace) same,
        sym b ∙ ap (λ x. x.name) same,
        sym c ∙ ap (λ x. x.status) same,
      )

  upsert-AllTrue :
      (engine : Engine) (e : EventDef) (doc : Doc) (rows : List (EventRow Doc))
      → Keeps e
      → yaml.marshal e ≡ some doc
      → All IsTrue rows
      → All IsTrue (upsert engine e doc rows)
  unfolding upsert new_row
  upsert-AllTrue engine e doc [] keeps is_doc h =
      (λ def reads. stored-columns e def doc keeps is_doc reads, tt)
  upsert-AllTrue engine e doc (row ∷ rows) keeps is_doc (h, hs) =
      elim (Bool-cases (is_key e.namespace e.name e.version row)) [
        | inl same ↦
            let (a, b, c) = (is_key_iff e.namespace e.name e.version row).0 same in
            rw same (
              λ def reads.
                  let (p, q, r) = stored-columns e def doc keeps is_doc reads in (a ∙ p, b ∙ q, r),
              hs,
            )
        | inr other ↦ rw other (h, upsert-AllTrue engine e doc rows keeps is_doc hs)
      ]

  publish_doc-AllTrue :
      (engine : Engine) (e : EventDef) (user_id : String) (m : Option Doc) (db : Database Doc)
      → Keeps e
      → yaml.marshal e ≡ m
      → AllTrue db
      → AllTrue (publish_doc engine e user_id m db).1
  unfolding publish_doc
  publish_doc-AllTrue engine e user_id none db keeps is_doc h = h
  publish_doc-AllTrue engine e user_id (some doc) db keeps is_doc h =
      elim (Bool-cases engine.on_write) [
        | inl write ↦ simp write (upsert-AllTrue engine e doc db.events keeps is_doc h)
        | inr no_write ↦ simp no_write h
      ]

  -- PublishEvent keeps the columns of every row those of the spec in it, whatever the engine does, when
  -- YAML keeps the namespace, the name and the status of the event that it writes.
  pub publish_event-AllTrue :
      (engine : Engine) (e : EventDef) (user_id : String) (db : Database Doc)
      → Keeps (default_status e)
      → AllTrue db
      → AllTrue (publish_event yaml engine e user_id db).1
  unfolding publish_event
  publish_event-AllTrue engine e user_id db keeps h =
      publish_doc-AllTrue engine (default_status e) user_id (yaml.marshal (default_status e)) db
        keeps refl h
