-- ===== src/Analytics/Context/Precedence.antt =====
-- The context of an event: each part comes from the first source that has it.
use event_spec.Prelude.{
  not, ◌≡◌, refl, sym, ap, ◌∙◌, subst, List, [], ◌∷◌, Option, none, some, String, Map, IsMap, arith,
  Holds, lookup, insert_all, insert_all-IsMap, lookup-insert_all, or_else, if◌then◌else◌, ◌==◌,
  eq_iff,
}
use event_spec.Prelude.Values.{Value}
use event_spec.Hooks.{AnalyticsContext}
use event_spec.Analytics.Context.{
  override_text, merge_attributes, merge, merge_if, Sources, merge_context_chain,
}

-- The first text that is not empty, the attribute of the first source that has it.
pub first_text : (AnalyticsContext → String) → List (Option AnalyticsContext) → String
first_text field [] = ""
first_text field (none ∷ levels) = first_text field levels
first_text field (some c ∷ levels) =
    if not (field c == "") then field c else first_text field levels

pub first_attribute : String → List (Option AnalyticsContext) → Option Value
first_attribute k [] = none
first_attribute k (none ∷ levels) = first_attribute k levels
first_attribute k (some c ∷ levels) = or_else (lookup k c.attributes) (first_attribute k levels)

-- The sources, the strongest first.
abbrev pub levels : Sources → List (Option AnalyticsContext)
levels s = s.invocation ∷ some s.client ∷ s.transaction ∷ s.request ∷ some s.global ∷ []

abbrev pub HasMap : AnalyticsContext → Type 0
HasMap c = IsMap c.attributes

-- A context agrees with a list of sources.
record Agrees (c : AnalyticsContext) (sources : List (Option AnalyticsContext)) : Type 0 where
  user : c.user_id ≡ first_text (λ c. c.user_id) sources
  anonymous : c.anonymous_id ≡ first_text (λ c. c.anonymous_id) sources
  attribute : (k : String) → lookup k c.attributes ≡ first_attribute k sources
  has_map : HasMap c

merge_attributes-insert_all :
    (base over : Map Value) → merge_attributes base over ≡ insert_all over (insert_all base [])
unfolding merge_attributes insert_all
merge_attributes-insert_all [] [] = refl
merge_attributes-insert_all [] (o ∷ over) = refl
merge_attributes-insert_all (b ∷ base) [] = refl
merge_attributes-insert_all (b ∷ base) (o ∷ over) = refl

module _ (base over : Map Value) where
  lookup-merge_attributes :
      (k : String)
      → IsMap base
      → IsMap over
      → lookup k (merge_attributes base over) ≡ or_else (lookup k over) (lookup k base)
  lookup-merge_attributes k hb ho =
      ap (lookup k) (merge_attributes-insert_all base over)
      ∙ lookup-insert_all k over (insert_all base []) ho
      ∙ ap (or_else (lookup k over)) (lookup-insert_all k base [] hb ∙ or_else-none (lookup k base))
    where
      or_else-none : (o : Option Value) → or_else o (lookup k []) ≡ o
      or_else-none none = unfold lookup in refl
      or_else-none (some v) = refl

  merge_attributes-IsMap : IsMap (merge_attributes base over)
  merge_attributes-IsMap =
      subst IsMap (sym (merge_attributes-insert_all base over))
        (insert_all-IsMap over (insert_all base []) (insert_all-IsMap base [] tt))

Agrees-merge :
    (base over : AnalyticsContext) (sources : List (Option AnalyticsContext))
    → HasMap over
    → Agrees base sources
    → Agrees (merge base over) (some over ∷ sources)
unfolding merge first_text first_attribute
Agrees-merge base over sources h a = record {
  user = ap (λ t. override_text t over.user_id) a.user;
  anonymous = ap (λ t. override_text t over.anonymous_id) a.anonymous;
  attribute = λ k.
      lookup-merge_attributes base.attributes over.attributes k a.has_map h
      ∙ ap (or_else (lookup k over.attributes)) (a.attribute k);
  has_map = merge_attributes-IsMap base.attributes over.attributes;
}

Agrees-merge_if :
    (base : AnalyticsContext) (over : Option AnalyticsContext)
    (sources : List (Option AnalyticsContext))
    → Holds HasMap over
    → Agrees base sources
    → Agrees (merge_if base over) (over ∷ sources)
unfolding first_text first_attribute
Agrees-merge_if base none sources h a = record {
  user = a.user;
  anonymous = a.anonymous;
  attribute = a.attribute;
  has_map = a.has_map;
}
Agrees-merge_if base (some over) sources h a = Agrees-merge base over sources h a

Agrees-global : (c : AnalyticsContext) → HasMap c → Agrees c (some c ∷ [])
unfolding first_text first_attribute
Agrees-global c h = record {
  user = ground (arith, eq_iff c.user_id "");
  anonymous = ground (arith, eq_iff c.anonymous_id "");
  attribute = λ k. ground arith;
  has_map = h;
}

-- The attributes of each source have no key twice.
pub record AreMaps (s : Sources) : Type 0 where
  pub global_map : HasMap s.global
  pub request_map : Holds HasMap s.request
  pub transaction_map : Holds HasMap s.transaction
  pub client_map : HasMap s.client
  pub invocation_map : Holds HasMap s.invocation

-- Each identity of the merged context is the first one that is not empty, and each attribute the
-- first one that is set, going through the call, the client, the client's transaction, the
-- transaction of the request, and the global context.
pub merge_context_chain-first :
    (s : Sources)
    → AreMaps s
    → ((merge_context_chain s).user_id ≡ first_text (λ c. c.user_id) (levels s))
      × ((merge_context_chain s).anonymous_id ≡ first_text (λ c. c.anonymous_id) (levels s))
      × ((k : String) → lookup k (merge_context_chain s).attributes ≡ first_attribute k (levels s))
unfolding merge_context_chain
merge_context_chain-first s h =
    let request =
      Agrees-merge_if s.global s.request _ h.request_map (Agrees-global s.global h.global_map) in
    let transaction = Agrees-merge_if _ s.transaction _ h.transaction_map request in
    let client = Agrees-merge _ s.client _ h.client_map transaction in
    let all = Agrees-merge_if _ s.invocation _ h.invocation_map client in
    (all.user, all.anonymous, all.attribute)
