-- ===== src/Store/Facade/Discard.antt =====
-- The writer connection of `ControlPlaneStore` in src/store/mod.rs.
use minisqlite.Base.{Bool, true, false, Result, ok, err}
use minisqlite.Store.Commit
use minisqlite.Store.Claims

abbrev pub is_ok : {A : Type 0} {E : Type 0} → Result A E → Bool
is_ok (ok a) = true
is_ok (err e) = false
