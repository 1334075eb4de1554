-- ===== src/Signal/Value.antt =====
-- The JavaScript values that a client's payload can be, with the operations that the handlers of
-- apps/signal/src/gateway.ts and the routes of apps/web use on them. A number that is negative or no
-- integer is `other_num`; its value is never read.
use Prim.Native.String
use vortex_reloaded.Base.{
  ℕ, zero, suc, ◌+◌, ◌/◌, ◌%◌, String, Bool, true, false, List, [], ◌∷◌, Option, none, some, ltb,
  if◌then◌else◌, str_eq,
}

mutual
  -- In the order of `Object.entries`.
  pub data Properties : Type 0 where
    no_property : Properties
    property : (name : String) → Value → Properties → Properties

  pub data Elements : Type 0 where
    no_element : Elements
    element : Value → Elements → Elements

  pub data Value : Type 0 where
    undefined null : Value
    bool : Bool → Value
    str : String → Value
    num : ℕ → Value
    other_num : Value
    obj : Properties → Value
    arr : Elements → Value

abbrev pub items : Elements → List Value
items no_element = []
items (element v vs) = v ∷ items vs

abbrev pub fields : Properties → List (String × Value)
fields no_property = []
fields (property k v fs) = (k, v) ∷ fields fs

-- `typeof v === "object" && v !== null`
abbrev pub is_object : Value → Bool
is_object (arr vs) = true
is_object (obj fs) = true
is_object null = false
is_object _ = false

abbrev pub field_or_undefined : String → List (String × Value) → Value
field_or_undefined k [] = undefined
field_or_undefined k ((j, v) ∷ fs) = if str_eq j k then v else field_or_undefined k fs

-- The property `k` of an object, where `k` is no name that every array has.
unfoldable pub get : String → Value → Value
get k (obj fs) = field_or_undefined k (fields fs)
get k _ = undefined

abbrev pub as_string : Value → Option String
as_string (str s) = some s
as_string _ = none

abbrev pub as_bool : Value → Option Bool
as_bool (bool b) = some b
as_bool _ = none

-- `Array.isArray`
abbrev pub as_array : Value → Option (List Value)
as_array (arr vs) = some (items vs)
as_array _ = none

-- A text that is not empty, as in `typeof v === "string" && v`.
abbrev pub as_nonempty : Value → Option String
as_nonempty (str s) = if str_eq s "" then none else some s
as_nonempty _ = none

-- All elements, if each is a text that is not empty.
unfoldable pub all_nonempty : List Value → Option (List String)
all_nonempty [] = some []
all_nonempty (v ∷ vs) = elim (as_nonempty v) [
  | none ↦ none
  | some s ↦ elim (all_nonempty vs) [ none ↦ none | some ss ↦ some (s ∷ ss) ]
]

-- The elements that are texts.
unfoldable pub strings : List Value → List String
strings [] = []
strings (v ∷ vs) = elim (as_string v) [ none ↦ strings vs | some s ↦ s ∷ strings vs ]

digit : ℕ → String
digit d =
    if ltb d 5
    then (if ltb d 1
        then "0"
        else if ltb d 2
        then "1"
        else if ltb d 3
        then "2"
        else if ltb d 4
        then "3"
        else "4")
    else (if ltb d 6
        then "5"
        else if ltb d 7
        then "6"
        else if ltb d 8
        then "7"
        else if ltb d 9
        then "8"
        else "9")

-- The decimal text of an index; as many rounds as the index itself are enough.
decimal : (fuel n : ℕ) → String
decimal zero n = digit n
decimal (suc f) n =
    let more = String.◌++◌ (decimal f (n / 10)) (digit (n % 10)) in
    if ltb n 10 then digit n else more

indexed : ℕ → List Value → List (String × Value)
indexed i [] = []
indexed i (v ∷ vs) = (decimal i i, v) ∷ indexed (i + 1) vs

-- `Object.entries`
unfoldable pub entries : Value → List (String × Value)
unfolding indexed decimal digit
entries (obj fs) = fields fs
entries (arr vs) = indexed 0 (items vs)
entries _ = []

-- The entries whose value is a text.
unfoldable pub string_entries : List (String × Value) → List (String × String)
string_entries [] = []
string_entries ((k, v) ∷ es) = elim (as_string v) [
  | none ↦ string_entries es
  | some s ↦ (k, s) ∷ string_entries es
]
