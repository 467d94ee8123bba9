-- ===== src/Examples/Projections.antt =====
-- Patches of projections on concrete tables, and a padded message.
use minisqlite.Base.{◌≡◌, ◌%◌, refl, utf8, length, some, none, ◌∷◌, []}
use minisqlite.Sha256.{new, blocks, update, pad, sha256}
use minisqlite.Sha256.Compress.{initial, words_bytes}
use minisqlite.Sha256.Padding.{padded, sha256-padded}
use minisqlite.Store.Projections.{projection_get}
use minisqlite.Store.Projections.View.{mutate_views}
use minisqlite.Store.Projections.Patched.{projection_get-apply_projection_patch}
use minisqlite.Examples.Data.{db, patch, patched}

projection_get-apply_projection_patch_example :
    projection_get patched (utf8 "totals") (utf8 "us:1")
    ≡ mutate_views (utf8 "totals") patch.mutations (projection_get db) (utf8 "totals") (utf8 "us:1")
unfolding minisqlite.Store.Projections.apply_projection_patch minisqlite.Projection.validate
    minisqlite.Base.bytes_eq minisqlite.Sql.find_row minisqlite.Sql.exists_row minisqlite.Sql.upsert
    minisqlite.Sql.delete
projection_get-apply_projection_patch_example =
    projection_get-apply_projection_patch db patched patch (utf8 "totals") (utf8 "us:1") refl

sha256-padded_example :
    (sha256 (utf8 "abc")
      ≡ words_bytes (blocks (length (padded (utf8 "abc"))) initial (padded (utf8 "abc"))).0)
    × (length (pad 64 (update (update new (utf8 "abc")) (0x80 ∷ []))).buffer ≡ 56)
    × (length (padded (utf8 "abc")) % 64 ≡ 0)
sha256-padded_example = sha256-padded (utf8 "abc")
