-- ===== src/Ownership/Classes.antt =====
-- The release functions of the four wrapper classes do what the wrappers rely on.
use duckdb_coda.Prelude.{
  ℕ, ◌==◌, ◌<◌, ◌≡◌, refl, ◌∙◌, lt→ltb, false, List, arith, ok, if_true, if_false,
}
use duckdb_coda.Ownership.{
  count, remove, free_allocated, free_block, scan_close, close_handle, catalog_response, scan_batch,
  scan_handle, attach_config,
}
use duckdb_coda.Ownership.Reset.{Releases}

free_allocated-live :
    (raw : ℕ) (live : List ℕ) → 0 < count raw live → free_allocated raw live ≡ ok (remove raw live)
unfolding free_allocated
free_allocated-live raw live h = if_true _ _ _ (lt→ltb 0 (count raw live) h)

free_block-live :
    (raw : ℕ) (live : List ℕ)
    → 0 < raw
    → 0 < count raw live
    → free_block raw live ≡ ok (remove raw live)
unfolding free_block
free_block-live raw live pos h =
    if_false (raw == 0) _ _ (ground arith) ∙ free_allocated-live raw live h

close_handle-live :
    (raw : ℕ) (live : List ℕ)
    → 0 < raw
    → 0 < count raw live
    → close_handle raw live ≡ ok (remove raw live)
unfolding close_handle scan_close
close_handle-live raw live pos h =
    let not_null : (raw == 0) ≡ false = ground arith in
    if_false _ _ _ not_null ∙ if_false _ _ _ not_null ∙ free_allocated-live raw live h

pub catalog_response-Releases : Releases catalog_response
unfolding free_block
catalog_response-Releases = record { release_null = λ live. refl; release_live = free_block-live }

pub scan_batch-Releases : Releases scan_batch
unfolding free_block
scan_batch-Releases = record { release_null = λ live. refl; release_live = free_block-live }

pub attach_config-Releases : Releases attach_config
unfolding free_block
attach_config-Releases = record { release_null = λ live. refl; release_live = free_block-live }

pub scan_handle-Releases : Releases scan_handle
unfolding close_handle
scan_handle-Releases = record { release_null = λ live. refl; release_live = close_handle-live }
