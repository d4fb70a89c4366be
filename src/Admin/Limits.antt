-- ===== src/Admin/Limits.antt =====
-- What the throttle of `scripts/ubb_admin/auth.py` bounds: its memory.
use ultimate_bbsbox.Prelude.{ℕ, ◌≤◌, String, List, [], ◌∷◌, arith, length}
use ultimate_bbsbox.Admin.Throttle.{Entry, LoginThrottle, evict, cleanup, failure}

length-evict-le : (most : ℕ) (es : List Entry) → length (evict most es) ≤ most
unfolding evict
length-evict-le most [] = omega arith
length-evict-le most (e ∷ es) = ground (arith, length-evict-le most es)

-- However many users and sources fail, the throttle never remembers more entries than its maximum.
pub length-failure-le :
    (now : ℕ) (username from : String) (t : LoginThrottle)
    → length (failure now username from t).1.entries ≤ t.max_entries
unfolding failure cleanup
length-failure-le now username from t = length-evict-le _ _
