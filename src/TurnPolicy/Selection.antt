-- ===== src/TurnPolicy/Selection.antt =====
-- The tools that a selector may choose: `filterSelectedToolsToRole` (internal/gateway/tool_selection.go).
use blueship.Prelude.{
  String, Bool, not, ◌&&◌, ◌||◌, List, [], ◌∷◌, ◌≡◌, arith, contains, str_eq, eq_iff, if◌then◌else◌,
}
use blueship.ToolRegistry.{ToolRegistry, definitions_for_names, is_wildcard}
use blueship.TurnPolicy.{names}

unfoldable pub base_peers : List String → List String
base_peers [] = []
base_peers (n ∷ ns) = let rest = base_peers ns in if is_wildcard n then n ∷ rest else rest

module _ {H : Type 0} (registry : ToolRegistry H) where
  -- The two tests of the loop on a name.
  unfoldable pub in_role : List String → String → Bool
  in_role base n =
      if is_wildcard n
      then contains (base_peers base) n
      else contains (names (definitions_for_names registry base)) n

  unfoldable pub filter_names : List String → (seen : List String) → List String → List String
  filter_names base seen [] = []
  filter_names base seen (n ∷ ns) =
      if str_eq n "" || contains seen n || not (in_role base n)
      then filter_names base seen ns
      else n ∷ filter_names base (n ∷ seen) ns

  -- `filterSelectedToolsToRole`
  unfoldable pub filter_selected_tools_to_role : List String → List String → List String
  filter_selected_tools_to_role base selected = filter_names base [] selected

  filter_names-contains :
      (base seen ns : List String) (k : String)
      → contains (filter_names base seen ns) k
        ≡ (not (str_eq k "") && in_role base k && contains ns k && not (contains seen k))
  unfolding filter_names contains
  filter_names-contains base seen [] k = ground arith
  filter_names-contains base seen (n ∷ ns) k = ground (
    arith,
    filter_names-contains base seen ns k,
    filter_names-contains base (n ∷ seen) ns k,
    eq_iff n k,
  )

  -- The filter keeps exactly the selected names that are not empty and that the role has: a
  -- wildcard among the role's own, or a tool that the role defines.
  filter_selected-contains :
      (base selected : List String) (k : String)
      → contains (filter_selected_tools_to_role base selected) k
        ≡ (not (str_eq k "") && in_role base k && contains selected k)
  unfolding filter_selected_tools_to_role contains
  filter_selected-contains base selected k =
      ground (arith, filter_names-contains base [] selected k)
