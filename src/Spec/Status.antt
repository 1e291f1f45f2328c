-- ===== src/Spec/Status.antt =====
-- The lifecycle states of an event, type EventStatus of spec/schema.go.
use event_spec.Prelude.{String}

abbrev pub draft : String
draft = "draft"

abbrev pub active : String
active = "active"

abbrev pub deprecated : String
deprecated = "deprecated"

abbrev pub deleted : String
deleted = "deleted"
