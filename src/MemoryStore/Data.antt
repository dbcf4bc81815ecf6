-- ===== src/MemoryStore/Data.antt =====
-- src/auth/interfaces/session-store.interface.ts and the item types of
-- src/auth/stores/memory-store.ts. A timestamp is in milliseconds.
use luoluo_auth.Common.{
  ℕ, String, Bool, true, false, Option, none, some, List, [], ◌∷◌, leb, if◌then◌else◌, ◌==◌, arith,
  eq_iff, ◌≡◌, ◌↔◌,
}

pub record SessionData : Type 0 where
  pub user_id : String
  pub device : Option String
  pub create_time : ℕ
  pub roles : Option (List String)
  pub permissions : Option (List String)
  pub original_user_id : Option String
  pub switch_time : Option ℕ
  pub safe_auth : Option Bool
  pub safe_auth_time : Option ℕ
  pub ip : Option String
  pub user_agent : Option String
  pub remember_me : Option Bool

-- `session` is the source's `data`.
pub record StoreItem : Type 0 where
  pub session : SessionData
  pub expire_at : ℕ
  pub timer : ℕ

pub record BlacklistItem : Type 0 where
  pub expire_at : ℕ
  pub timer : ℕ

pub data Callback : Type 0 where
  expire_session : String → Callback
  expire_ban : String → Callback

-- `value === text`, where the value may be `undefined`.
abbrev pub text_is : Option String → String → Bool
text_is none text = false
text_is (some s) text = s == text

pub text_is_iff :
    (value : Option String) (text : String) → (text_is value text ≡ true) ↔ (value ≡ some text)
text_is_iff none text = ground arith
text_is_iff (some s) text = ground (arith, eq_iff s text)

-- `sort((a, b) => a.createTime - b.createTime)`, which is stable.
unfoldable pub insert_by_create_time : String × ℕ → List (String × ℕ) → List (String × ℕ)
insert_by_create_time p [] = p ∷ []
insert_by_create_time p (q ∷ qs) =
    if leb p.1 q.1 then p ∷ q ∷ qs else q ∷ insert_by_create_time p qs

unfoldable pub sort_by_create_time : List (String × ℕ) → List (String × ℕ)
unfolding insert_by_create_time
sort_by_create_time [] = []
sort_by_create_time (p ∷ ps) = insert_by_create_time p (sort_by_create_time ps)
