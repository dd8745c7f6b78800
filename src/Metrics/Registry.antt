-- ===== src/Metrics/Registry.antt =====
-- metrics/src/macros.rs and metrics/src/lib.rs: what `metric!` declares. An attribute is its tokens,
-- as a text; the path of a static is given. An entry's metric is its declaration's place.
use Prim.Native.String.{String}
use mathlib.Core.Option
use hamerkop.Base.{
  Bool, true, Bool-cases, inl, inr, Option, some, none, not, ◌&&◌, ◌||◌, ℕ, ◌+◌, ◌-◌, ◌≡◌, refl,
  sym, ◌∙◌, false, List, [], ◌∷◌, ◌++◌, append_assoc, append-nil, ◌==◌, if◌then◌else◌, length,
  get_elem?, get_elem?-append_length, length-append, Outcome, done, ◌>>=◌, unwrap, arith,
}

-- `#[name = value]`, or any other attribute
pub data Attribute : Type 0 where
  name : String → Attribute
  other : String → Attribute

pub record Declaration : Type 0 where
  pub attributes : List Attribute
  pub path : String

pub record MetricEntry : Type 0 where
  pub metric : ℕ
  pub entry_name : String

-- The names, each put before those so far.
unfoldable pub collect_names : List Attribute → List String → List String
collect_names [] names = names
collect_names (name value ∷ attributes) names = collect_names attributes (value ∷ names)
collect_names (other tokens ∷ attributes) names = collect_names attributes names

unfoldable pub metric_first_name : List Attribute → String → Outcome String
metric_first_name attributes path =
    let names = collect_names attributes [] in
    if length names == 0 then done path else unwrap (get_elem? names (length names - 1))

-- The third rule matches only a name that stands last; every other attribute falls to the fourth, which
-- puts it before those that are kept.
unfoldable pub metric_filter_attrs : List Attribute → List Attribute → List Attribute
metric_filter_attrs [] kept = kept
metric_filter_attrs (name value ∷ []) kept = kept
metric_filter_attrs (current ∷ left) kept = metric_filter_attrs left (current ∷ kept)

unfoldable pub has_name : List Attribute → Bool
has_name [] = false
has_name (name value ∷ attributes) = true
has_name (other tokens ∷ attributes) = has_name attributes

-- The entries of the declarations, from the place `base` on, and the attributes that their statics
-- keep. The compiler knows no attribute `name`: where a static keeps one, the result is `none`.
unfoldable pub metric :
    ℕ → List Declaration → Outcome (Option (List (MetricEntry × List Attribute)))
metric base [] = done (some [])
metric base (d ∷ ds) =
    let kept = metric_filter_attrs d.attributes [] in
    if has_name kept
    then done none
    else (metric_first_name d.attributes d.path >>= λ n. metric (base + 1) ds >>= λ rest.
        done (Option.map (λ es. (record { metric = base; entry_name = n }, kept) ∷ es) rest))

-- the value of the first name
pub first_named : List Attribute → String → String
first_named [] path = path
first_named (name value ∷ attributes) path = value
first_named (other tokens ∷ attributes) path = first_named attributes path

names_of : List Attribute → List String
names_of [] = []
names_of (name value ∷ attributes) = names_of attributes ++ (value ∷ [])
names_of (other tokens ∷ attributes) = names_of attributes

collect_names-append :
    (attributes : List Attribute) (names : List String)
    → collect_names attributes names ≡ names_of attributes ++ names
unfolding collect_names names_of
collect_names-append [] names = refl
collect_names-append (name value ∷ attributes) names =
    collect_names-append attributes (value ∷ names)
    ∙ rw (append_assoc (names_of attributes) (value ∷ []) names) refl
collect_names-append (other tokens ∷ attributes) names = collect_names-append attributes names

last_of :
    (xs : List String) (x : String) (path : String)
    → (if length (xs ++ (x ∷ [])) == 0
        then done path
        else unwrap (get_elem? (xs ++ (x ∷ [])) (length (xs ++ (x ∷ [])) - 1)))
      ≡ done x
last_of xs x path =
    let some_names : (length (xs ++ (x ∷ [])) == 0) ≡ false =
      ground (arith, length-append xs (x ∷ [])) in
    let at : length (xs ++ (x ∷ [])) - 1 ≡ length xs = omega (arith, length-append xs (x ∷ [])) in
    rw (some_names, at, get_elem?-append_length xs x []) refl

-- The name of a metric is the first name among its attributes, and its path where there is none.
metric_first_name_lem :
    (attributes : List Attribute) (path : String)
    → metric_first_name attributes path ≡ done (first_named attributes path)
unfolding metric_first_name first_named collect_names
metric_first_name_lem [] path = refl
metric_first_name_lem (other tokens ∷ attributes) path = metric_first_name_lem attributes path
metric_first_name_lem (name value ∷ attributes) path =
    let names : collect_names attributes (value ∷ []) ≡ names_of attributes ++ (value ∷ []) =
      collect_names-append attributes (value ∷ []) in
    rw (metric_first_name, collect_names, names) (last_of (names_of attributes) value path)

-- A name, if any, stands last.
pub names_last : List Attribute → Bool
names_last [] = true
names_last (other tokens ∷ attributes) = names_last attributes
names_last (name value ∷ []) = true
names_last (name value ∷ (a ∷ attributes)) = false

pub last_name : List Attribute → String → String
last_name [] path = path
last_name (other tokens ∷ attributes) path = last_name attributes path
last_name (name value ∷ []) path = value
last_name (name value ∷ (a ∷ attributes)) path = last_name (a ∷ attributes) path

-- the other attributes, the last one first
pub others_backwards : List Attribute → List Attribute
others_backwards [] = []
others_backwards (other tokens ∷ attributes) = others_backwards attributes ++ (other tokens ∷ [])
others_backwards (name value ∷ attributes) = others_backwards attributes

first_named-last :
    (attributes : List Attribute) (path : String)
    → names_last attributes ≡ true
    → first_named attributes path ≡ last_name attributes path
unfolding first_named names_last last_name
first_named-last [] path h = refl
first_named-last (other tokens ∷ attributes) path h = first_named-last attributes path h
first_named-last (name value ∷ []) path h = refl
first_named-last (name value ∷ (a ∷ attributes)) path h = absurd (ground arith)

or_true : (b : Bool) → (b || true) ≡ true
or_true true = refl
or_true false = refl

-- What the filter keeps has a name exactly where a name does not stand last.
has_name-filter :
    (attributes kept : List Attribute)
    → has_name (metric_filter_attrs attributes kept)
      ≡ (not (names_last attributes) || has_name kept)
unfolding has_name metric_filter_attrs names_last
has_name-filter [] kept = refl
has_name-filter (other tokens ∷ attributes) kept = has_name-filter attributes (other tokens ∷ kept)
has_name-filter (name value ∷ []) kept = refl
has_name-filter (name value ∷ (a ∷ attributes)) kept =
    has_name-filter (a ∷ attributes) (name value ∷ kept)
    ∙ or_true (not (names_last (a ∷ attributes)))

filter-backwards :
    (attributes kept : List Attribute)
    → names_last attributes ≡ true
    → metric_filter_attrs attributes kept ≡ others_backwards attributes ++ kept
unfolding metric_filter_attrs others_backwards names_last
filter-backwards [] kept h = refl
filter-backwards (other tokens ∷ attributes) kept h =
    filter-backwards attributes (other tokens ∷ kept) h
    ∙ sym (append_assoc (others_backwards attributes) (other tokens ∷ []) kept)
filter-backwards (name value ∷ []) kept h = refl
filter-backwards (name value ∷ (a ∷ attributes)) kept h = absurd (ground arith)

pub entries : ℕ → List Declaration → List (MetricEntry × List Attribute)
entries base [] = []
entries base (d ∷ ds) =
    (
      record { metric = base; entry_name = last_name d.attributes d.path },
      others_backwards d.attributes,
    )
    ∷ entries (base + 1) ds

pub all_last : List Declaration → Bool
all_last [] = true
all_last (d ∷ ds) = names_last d.attributes && all_last ds

-- what `metric!` declares
pub declared : ℕ → List Declaration → Option (List (MetricEntry × List Attribute))
declared base ds = if all_last ds then some (entries base ds) else none

-- Where in every declaration no attribute follows a name, `metric!` registers each declaration, in
-- order, under its name, or under its path where it has none, and the static keeps the other
-- attributes, the last one first. Where an attribute follows a name in any of them, so also where one
-- has two names, a static keeps an attribute `name` and the declarations do not compile.
pub metric_lem : (base : ℕ) (ds : List Declaration) → metric base ds ≡ done (declared base ds)
unfolding metric entries all_last declared has_name
metric_lem base [] = refl
metric_lem base (d ∷ ds) = elim (Bool-cases (names_last d.attributes)) [
  | inr late ↦
      let found : has_name (metric_filter_attrs d.attributes []) ≡ true =
        has_name-filter d.attributes [] ∙ rw late refl in
      rw (metric, found, declared, all_last, late) refl
  | inl last ↦
      let clean : has_name (metric_filter_attrs d.attributes []) ≡ false =
        has_name-filter d.attributes [] ∙ rw last refl in
      rw
        (
          metric,
          clean,
          metric_first_name_lem d.attributes d.path,
          first_named-last d.attributes d.path last,
          metric_lem (base + 1) ds,
          filter-backwards d.attributes [] last,
          append-nil,
          declared,
          all_last,
          last,
        )
        (elim (Bool-cases (all_last ds)) [
          | inl e ↦ rw (declared, e) refl
          | inr e ↦ rw (declared, e) refl
        ])
]
