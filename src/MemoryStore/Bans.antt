-- ===== src/MemoryStore/Bans.antt =====
-- The blacklist of the session store.
use luoluo_auth.Common.{ℕ, ◌+◌, ◌*◌, String, ◌≡◌, false, leb, if◌then◌else◌, ◌==◌, arith, eq_iff}
use luoluo_auth.Common.JsMap
use luoluo_auth.MemoryStore
use luoluo_auth.MemoryStore.{MemoryStore}

-- A ban holds from its call until duration seconds later, both ends included, replaces an
-- earlier ban of the same user, and concerns no other user.
pub is_banned-ban :
    (s : MemoryStore) (now later : ℕ) (user other : String) (duration : ℕ)
    → (MemoryStore.is_banned (MemoryStore.ban s now user duration) later other).1 ≡ (
        if user == other
        then leb later (now + duration * 1000)
        else (MemoryStore.is_banned s later other).1)
unfolding MemoryStore.is_banned MemoryStore.ban
is_banned-ban s now later user other duration =
    rw (JsMap.get-set s.blacklist user _ other, MemoryStore.is_banned, MemoryStore.ban)
      (ground arith)

-- unban ends the ban of one user, and no other.
pub is_banned-unban :
    (s : MemoryStore) (later : ℕ) (user other : String)
    → (MemoryStore.is_banned (MemoryStore.unban s user) later other).1
      ≡ (if user == other then false else (MemoryStore.is_banned s later other).1)
unfolding MemoryStore.is_banned MemoryStore.unban
is_banned-unban s later user other =
    ground (arith, eq_iff user other, JsMap.get-delete s.blacklist user other)
