-- ===== src/Permission.antt =====
-- src/auth/permission/permission.engine.ts: roles, and permissions with `*` segments.
pub mod Matching
use Prim.Native.Char.{Char, code}
use Prim.Native.String
use luoluo_auth.Common.{
  ℕ, String, Bool, true, false, ◌&&◌, ◌||◌, Option, none, some, List, [], ◌∷◌, if◌then◌else◌,
  nat_eq, get_or, includes, some_of, every, length, ◌==◌,
}
use luoluo_auth.MemoryStore.Data.{SessionData}

-- `text.split(separator)` for a separator of one character: the parts between the separators.
abbrev pub cons_head : Char → List String → List String
cons_head c [] = (String.◌∷◌ c String.[]) ∷ []
cons_head c (part ∷ parts) = String.◌∷◌ c part ∷ parts

unfoldable pub split : ℕ → String → List String
split separator String.[] = "" ∷ []
split separator (String.◌∷◌ c s) =
    if nat_eq (code c) separator then "" ∷ split separator s else cons_head c (split separator s)

-- `userParts.every((part, index) => part === '*' || part === reqParts[index])`
unfoldable pub parts_match : List String → List String → Bool
parts_match [] required = true
parts_match (part ∷ parts) [] = part == "*" && parts_match parts []
parts_match (part ∷ parts) (r ∷ required) = (part == "*" || part == r) && parts_match parts required

unfoldable pub match_permission : String → String → Bool
match_permission user_perm required =
    if user_perm == "*"
    then true
    else if user_perm == required
    then true
    else let user_parts = split b':' user_perm in
      let req_parts = split b':' required in
      if nat_eq (length user_parts) (length req_parts)
      then parts_match user_parts req_parts
      else false

abbrev pub is_empty {ℓ} : {A : Type ℓ} → List A → Bool
is_empty [] = true
is_empty (x ∷ xs) = false

unfoldable pub has_role : SessionData → List String → Bool
has_role session required_roles =
    if is_empty required_roles
    then true
    else some_of (includes (get_or session.roles [])) required_roles

unfoldable pub has_permission : SessionData → List String → Bool
has_permission session required_permissions =
    if is_empty required_permissions
    then true
    else every
        (λ required.
          some_of (λ user_perm. match_permission user_perm required)
            (get_or session.permissions []))
        required_permissions
