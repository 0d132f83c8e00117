-- ===== src/Memory/Nesting/Relation.antt =====
-- What the nesting of groups means, apart from the code that walks it.
use lore_auth_bridge.Base.{String, string_eq, List, In, get_or_empty, HashMap}

-- `Nested edges g h`: `h` is `g` or a member of it, directly or through other groups.
pub data Nested (edges : HashMap String (List String)) : String → String → Type 0 where
  here : {g : String} → Nested edges g g
  down : {g m h : String} → In m (get_or_empty edges g) → Nested edges m h → Nested edges g h

pub Nested-trans :
    {edges : HashMap String (List String)} {g h i : String}
    → Nested edges g h
    → Nested edges h i
    → Nested edges g i
Nested-trans here n = n
Nested-trans (down m r) n = down m (Nested-trans r n)

-- No group is nested in one of its own members.
abbrev pub IsAcyclic : HashMap String (List String) → Type 0
IsAcyclic edges = (g m : String) → In m (get_or_empty edges g) → ¬ Nested edges m g
