-- ===== src/Workflows/Graph.antt =====
-- app/registry/workflows.py: a graph of the prompt API, as a dict of nodes. The text of a title
-- declares anchors.
use local_image_generator_se.Common.{
  ℕ, Bool, true, false, ◌&&◌, Option, none, some, List, [], ◌∷◌, ◌++◌, map, if◌then◌else◌,
}
use mathlib.Core.List.{reverse}
use local_image_generator_se.Common.Text.{Text, codes, strip, split, starts_with, among, text_eq}
use local_image_generator_se.Common.Table.{select}
use local_image_generator_se.Common.Dict.{Dict}
use local_image_generator_se.Validation.Request.{Decimal}

-- A JSON value of an input. `link` is a list of a text and a number, which is a reference to an
-- output slot of a node; `other` is any value that the program does not look into.
pub data Value : Type 0 where
  text : Text → Value
  int : ℕ → Value
  float : Decimal → Value
  flag : Bool → Value
  link : Text → ℕ → Value
  other : Text → Value

-- What stands under the key `inputs`: nothing, a dict, or a value that is no dict.
pub data Inputs : Type 0 where
  missing not_a_dict : Inputs
  fields : Dict Value → Inputs

-- `title` is that of `_meta`, when it is a text.
pub record Node : Type 0 where
  pub class_type : Option Text
  pub inputs : Inputs
  pub title : Option Text

abbrev pub Graph : Type 0
Graph = Dict Node

-- The exceptions that the code over graphs raises.
pub data Fault : Type 0 where
  workflow_validation anchor_not_found not_implemented bad_inputs : Fault

pub data Attempt {ℓ} (A : Type ℓ) : Type ℓ where
  done : A → Attempt A
  raised : Fault → Attempt A

infixl 5 ◌>>=◌ ◌>>◌
abbrev pub ◌>>=◌ {ℓ κ} : {A : Type ℓ} {B : Type κ} → Attempt A → (A → Attempt B) → Attempt B
done a >>= f = f a
raised e >>= f = raised e

abbrev pub ◌>>◌ {ℓ κ} : {A : Type ℓ} {B : Type κ} → Attempt A → Attempt B → Attempt B
m >> k = m >>= λ _. k

-- `except KeyError as exc: raise WorkflowValidationError(…) from exc`
abbrev pub or_invalid {ℓ} : {A : Type ℓ} → Attempt A → Attempt A
or_invalid (done a) = done a
or_invalid (raised anchor_not_found) = raised workflow_validation
or_invalid (raised e) = raised e

abbrev percent : Text
percent = codes "%"

is_anchor : Text → Bool
is_anchor p = starts_with p percent && starts_with (reverse p) percent

abbrev anchors_of : Option Text → List Text
anchors_of none = []
anchors_of (some t) = select is_anchor (map strip (split 44 t))

unfoldable pub title_anchors : Node → List Text
unfolding is_anchor
title_anchors node = anchors_of node.title

unfoldable pub find_anchor : Graph → Text → Attempt Text
find_anchor [] anchor = raised anchor_not_found
find_anchor ((node_id, node) ∷ graph) anchor =
    if among anchor (title_anchors node) then done node_id else find_anchor graph anchor

-- The ids that the loop appends to `owners[anchor]` for one node.
unfoldable pub owners_in : Text → Text → List Text → List Text
owners_in anchor node_id [] = []
owners_in anchor node_id (a ∷ as') =
    let rest = owners_in anchor node_id as' in if text_eq anchor a then node_id ∷ rest else rest

unfoldable pub owners : Graph → Text → List Text
unfolding owners_in
owners [] anchor = []
owners ((node_id, node) ∷ graph) anchor =
    owners_in anchor node_id (title_anchors node) ++ owners graph anchor

abbrev pub no_ids : List Text → Bool
no_ids [] = true
no_ids (i ∷ ids) = false

abbrev pub many_ids : List Text → Bool
many_ids (i ∷ j ∷ ids) = true
many_ids _ = false

-- The two lists of problems: the anchors without an owner, and those with more than one.
unfoldable pub missing_anchors : Graph → List Text → List Text
missing_anchors graph = select (λ anchor. no_ids (owners graph anchor))

unfoldable pub duplicated_anchors : Graph → List Text → List Text
duplicated_anchors graph = select (λ anchor. many_ids (owners graph anchor))

unfoldable pub validate_anchors : Graph → List Text → Attempt (Unit {0})
unfolding missing_anchors duplicated_anchors
validate_anchors graph required =
    if no_ids (missing_anchors graph required) && no_ids (duplicated_anchors graph required)
    then done tt
    else raised workflow_validation
