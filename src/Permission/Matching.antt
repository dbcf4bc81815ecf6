-- ===== src/Permission/Matching.antt =====
-- src/auth/permission/permission.engine.ts: what the engine decides, against a description by the
-- parts of a permission.

use luoluo_auth.Common.{
  suc, String, ◌≡◌, ◌↔◌, ◌⊎◌, inl, inr, refl, ap, Bool, true, ◌||◌, List, [], ◌∷◌, get_or, includes,
  some_of, every, length, ◌==◌, arith, eq_iff, eq_refl, All, Bool-cases,
}
use luoluo_auth.MemoryStore.Data.{SessionData}
use luoluo_auth.Permission.{split, parts_match, match_permission, has_role, has_permission}

-- A part is granted by itself and by `*`, and the parts are granted one by one.
pub data Grants : List String → List String → Type 0 where
  done : Grants [] []
  star :
      {r : String} {parts required : List String}
      → Grants parts required
      → Grants ("*" ∷ parts) (r ∷ required)
  same :
      {r : String} {parts required : List String}
      → Grants parts required
      → Grants (r ∷ parts) (r ∷ required)

parts_match-Grants :
    (parts required : List String)
    → length parts ≡ length required
    → parts_match parts required ≡ true
    → Grants parts required
unfolding parts_match
parts_match-Grants [] [] l h = done
parts_match-Grants [] (r ∷ required) l h = absurd (omega arith)
parts_match-Grants (part ∷ parts) [] l h = absurd (omega arith)
parts_match-Grants (part ∷ parts) (r ∷ required) l h =
    let rest = parts_match-Grants parts required (omega arith) (ground arith) in
    elim (Bool-cases (part == "*")) [
      | inl e ↦ rw ((eq_iff part "*").0 e) (star rest)
      | inr e ↦ rw ((eq_iff part r).0 (ground arith)) (same rest)
    ]

Grants-parts_match :
    {parts required : List String}
    → Grants parts required
    → (length parts ≡ length required) × (parts_match parts required ≡ true)
unfolding parts_match
Grants-parts_match done = (refl, refl)
Grants-parts_match (star {r} g) =
    let (l, h) = Grants-parts_match g in (ap suc l, rw h (ground arith))
Grants-parts_match (same {r} g) =
    let (l, h) = Grants-parts_match g in (ap suc l, rw (h, eq_refl) (ground arith))

Grants-refl : (parts : List String) → Grants parts parts
Grants-refl [] = done
Grants-refl (part ∷ parts) = same (Grants-refl parts)

-- What a permission stands for: `*` alone for everything, else part for part.
abbrev pub Permits : String → String → Type 0
Permits user_perm required = (user_perm ≡ "*") ⊎ Grants (split b':' user_perm) (split b':' required)

match_permission-Permits :
    (user_perm required : String)
    → match_permission user_perm required ≡ true
    → Permits user_perm required
unfolding match_permission
match_permission-Permits user_perm required h = elim (Bool-cases (user_perm == "*")) [
  | inl e ↦ inl ((eq_iff user_perm "*").0 e)
  | inr e ↦ elim (Bool-cases (user_perm == required)) [
    | inl f ↦ inr (rw ((eq_iff user_perm required).0 f) (Grants-refl (split b':' required)))
    | inr f ↦ inr (
        parts_match-Grants (split b':' user_perm) (split b':' required) (ground arith)
          (ground arith))
  ]
]

Permits-match_permission :
    (user_perm required : String)
    → Permits user_perm required
    → match_permission user_perm required ≡ true
unfolding match_permission
Permits-match_permission user_perm required (inl e) = ground (arith, eq_iff user_perm "*")
Permits-match_permission user_perm required (inr g) =
    let (l, h) = Grants-parts_match g in ground arith

-- One permission matches another exactly if it is *, or both have equally many parts and each
-- part is * or the part required at its place.
pub match_permission_iff :
    (user_perm required : String)
    → (match_permission user_perm required ≡ true) ↔ Permits user_perm required
match_permission_iff user_perm required =
    (match_permission-Permits user_perm required, Permits-match_permission user_perm required)

-- Some permission of the list stands for the required one.
abbrev pub HasPermit : List String → String → Type 0
HasPermit [] required = ⊥
HasPermit (p ∷ ps) required = Permits p required ⊎ HasPermit ps required

abbrev grants_any : List String → String → Bool
grants_any ps required = some_of (λ p. match_permission p required) ps

or-cases : (a b : Bool) → (a || b) ≡ true → (a ≡ true) ⊎ (b ≡ true)
or-cases a b h = ground arith

grants_any-HasPermit :
    (ps : List String) (required : String) → grants_any ps required ≡ true → HasPermit ps required
grants_any-HasPermit [] required h = cc
grants_any-HasPermit (p ∷ ps) required h =
    elim (or-cases (match_permission p required) (grants_any ps required) h) [
      | inl e ↦ inl (match_permission-Permits p required e)
      | inr e ↦ inr (grants_any-HasPermit ps required e)
    ]

HasPermit-grants_any :
    (ps : List String) (required : String) → HasPermit ps required → grants_any ps required ≡ true
HasPermit-grants_any [] required h = absurd h
HasPermit-grants_any (p ∷ ps) required (inl e) = rw (Permits-match_permission p required e)
HasPermit-grants_any (p ∷ ps) required (inr e) =
    rw (HasPermit-grants_any ps required e) (ground arith)

every-HasPermit :
    (ps required : List String)
    → every (grants_any ps) required ≡ true
    → All (HasPermit ps) required
every-HasPermit ps [] h = tt
every-HasPermit ps (r ∷ required) h =
    (grants_any-HasPermit ps r (ground arith), every-HasPermit ps required (ground arith))

HasPermit-every :
    (ps required : List String)
    → All (HasPermit ps) required
    → every (grants_any ps) required ≡ true
HasPermit-every ps [] h = refl
HasPermit-every ps (r ∷ required) h =
    rw (HasPermit-grants_any ps r h.0) (HasPermit-every ps required h.1)

has_permission-every :
    (session : SessionData) (required : List String)
    → has_permission session required ≡ every (grants_any (get_or session.permissions [])) required
unfolding has_permission
has_permission-every session [] = refl
has_permission-every session (r ∷ required) = refl

-- A session has the required permissions exactly if each of them is matched by one of its own.
pub has_permission_iff :
    (session : SessionData) (required : List String)
    → (has_permission session required ≡ true)
      ↔ All (HasPermit (get_or session.permissions [])) required
has_permission_iff session required = rw (has_permission-every session required) (
  every-HasPermit (get_or session.permissions []) required,
  HasPermit-every (get_or session.permissions []) required,
)

-- A role of the list that the other list has, too.
abbrev pub Shares : List String → List String → Type 0
Shares roles [] = ⊥
Shares roles (r ∷ required) = (includes roles r ≡ true) ⊎ Shares roles required

some-Shares :
    (roles required : List String)
    → some_of (includes roles) required ≡ true
    → Shares roles required
some-Shares roles [] h = cc
some-Shares roles (r ∷ required) h =
    elim (or-cases (includes roles r) (some_of (includes roles) required) h) [
      | inl e ↦ inl e
      | inr e ↦ inr (some-Shares roles required e)
    ]

Shares-some :
    (roles required : List String)
    → Shares roles required
    → some_of (includes roles) required ≡ true
Shares-some roles [] h = absurd h
Shares-some roles (r ∷ required) (inl e) = rw e
Shares-some roles (r ∷ required) (inr e) = rw (Shares-some roles required e) (ground arith)

-- A session passes a role check exactly if no role is required or it has one of them.
pub has_role_iff :
    (session : SessionData) (required : List String)
    → (has_role session required ≡ true)
      ↔ ((required ≡ []) ⊎ Shares (get_or session.roles []) required)
unfolding has_role
has_role_iff session [] = (λ h. inl refl, λ h. refl)
has_role_iff session (r ∷ required) = (
  λ h. inr (some-Shares (get_or session.roles []) (r ∷ required) h),
  λ h. elim h [ inl e ↦ cc | inr e ↦ Shares-some (get_or session.roles []) (r ∷ required) e ],
)
