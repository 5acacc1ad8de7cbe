-- ===== src/Handles/Apart.antt =====
-- Scans do not disturb each other: the calls on one handle leave the others as they are.
use duckdb_coda.Prelude.{
  ℕ, suc, ◌==◌, ◌≤◌, ◌≡◌, refl, sym, ap, ◌∙◌, Bool-cases, inl, inr, false, Option, none, some,
  Option-cases, List, [], ◌∷◌, if_true, if_false, Outcome, returned, threw, out_of_fuel, Result, ok,
  err, and_then, and_then-eq-ok, ok-value, subst, arith,
}
use duckdb_coda.Text.{Text}
use duckdb_coda.Abi.{
  RustExtClientConfig, RustExtScanRequest, RustExtScanBatch, CodaRowsRequest, CodaRowsResponse,
}
use duckdb_coda.Duckdb.{Duckdb}
use duckdb_coda.Ownership.{Fault, ruled_out, dead_block}
use duckdb_coda.Fetch.{ScanHandle, new_handle, next_batch}
use duckdb_coda.Handles.{
  Handles, set_box, scan_open, close_scan, put_back, scan_next, thrown_message, next_scan_batch,
  open_scan, RustBridgeScanRequest,
}

-- What the scans do with the handles.
pub data Call : Type 0 where
  open_call : RustExtClientConfig → Text → RustExtScanRequest → Call
  next_call close_call : ℕ → Call

-- A call that is not on this handle.
pub data NotOn (id : ℕ) : Call → Type 0 where
  opens :
      {config : RustExtClientConfig} {table_id : Text} {request : RustExtScanRequest}
      → NotOn id (open_call config table_id request)
  nexts : {other : ℕ} → (other == id) ≡ false → NotOn id (next_call other)
  closes : {other : ℕ} → (other == id) ≡ false → NotOn id (close_call other)

pub data NoneOn (id : ℕ) : List Call → Type 0 where
  no_call : NoneOn id []
  and_call :
      {call : Call} {calls : List Call} → NotOn id call → NoneOn id calls → NoneOn id (call ∷ calls)

module _ {World : Type 0}
    (list_rows : RustExtClientConfig
      → Text
      → CodaRowsRequest
      → World
      → Result Text CodaRowsResponse × World)
    (fuel : ℕ) where
  -- The handles and the world after a call of `next_batch`, with a batch or with an error.
  abbrev pub state_of :
      Outcome Text (Handles × World) RustExtScanBatch → Result Fault (Handles × World)
  state_of (returned batch s) = ok s
  state_of (threw message s) = ok s
  state_of out_of_fuel = err ruled_out

  unfoldable pub perform : Call → Handles × World → Result Fault (Handles × World)
  unfolding scan_open scan_next close_scan
  perform (open_call config table_id request) (handles, w) =
      ok ((scan_open config table_id request handles).1, w)
  perform (next_call id) s = and_then (scan_next list_rows fuel id s) state_of
  perform (close_call id) (handles, w) = and_then (close_scan id handles) (λ closed. ok (closed, w))

  unfoldable pub perform_all : List Call → Handles × World → Result Fault (Handles × World)
  unfolding perform
  perform_all [] s = ok s
  perform_all (call ∷ calls) s = and_then (perform call s) (perform_all calls)

  -- The box of a handle is what it was, and no new handle takes its address.
  record Same (id : ℕ) (s s' : Handles × World) : Type 0 where
    pub box : s'.0.boxes id ≡ s.0.boxes id
    pub below : id ≤ s.0.last → id ≤ s'.0.last

  set_box-Same :
      (id other : ℕ) (box : Option ScanHandle) (handles : Handles) (w v : World)
      → (other == id) ≡ false
      → Same id (handles, w) (set_box other box handles, v)
  set_box-Same id other box handles w v differ = record {
    box = if_false (other == id) _ _ differ;
    below = λ le. le;
  }

  put_back-Same :
      (id other : ℕ) (handles : Handles) (w : World)
      (outcome : Outcome Text (ScanHandle × World) RustExtScanBatch) {s' : Handles × World}
      → (other == id) ≡ false
      → state_of (put_back list_rows other handles outcome) ≡ ok s'
      → Same id (handles, w) s'
  unfolding put_back
  put_back-Same id other handles w (returned batch (h, v)) differ e =
      subst (Same id (handles, w)) (ok-value e) (set_box-Same id other (some h) handles w v differ)
  put_back-Same id other handles w (threw message (h, v)) differ e =
      subst (Same id (handles, w)) (ok-value e) (set_box-Same id other (some h) handles w v differ)
  put_back-Same id other handles w out_of_fuel differ e = cc e

  unchanged : (id : ℕ) (s : Handles × World) → Same id s s
  unchanged id s = record { box = refl; below = λ le. le }

  scan_next-none :
      (id : ℕ) (handles : Handles) (w : World)
      → (id == 0) ≡ false
      → handles.boxes id ≡ none
      → scan_next list_rows fuel id (handles, w) ≡ err dead_block
  unfolding scan_next
  scan_next-none id handles w there closed = rw (scan_next, there, closed) refl

  scan_next-some :
      (id : ℕ) (handles : Handles) (w : World) {h : ScanHandle}
      → (id == 0) ≡ false
      → handles.boxes id ≡ some h
      → scan_next list_rows fuel id (handles, w)
        ≡ ok (put_back list_rows id handles (next_batch list_rows fuel (h, w)))
  unfolding scan_next
  scan_next-some id handles w there opened = rw (scan_next, there, opened) refl

  next-Same :
      (id other : ℕ) (handles : Handles) (w : World) {s' : Handles × World}
      → (other == id) ≡ false
      → and_then (scan_next list_rows fuel other (handles, w)) state_of ≡ ok s'
      → Same id (handles, w) s'
  unfolding scan_next
  next-Same id other handles w differ e = elim (Bool-cases (other == 0)) [
    | inl null ↦
        subst (Same id (handles, w))
          (ok-value (sym (ap (λ r. and_then r state_of) (if_true (other == 0) _ _ null)) ∙ e))
          (unchanged id (handles, w))
    | inr there ↦ elim (Option-cases (handles.boxes other)) [
      | inl closed ↦
          cc (sym (ap (λ r. and_then r state_of) (scan_next-none other handles w there closed)) ∙ e)
      | inr (h, opened) ↦
          put_back-Same id other handles w (next_batch list_rows fuel (h, w)) differ
            (sym (ap (λ r. and_then r state_of) (scan_next-some other handles w there opened)) ∙ e)
    ]
  ]

  close-Same :
      (id other : ℕ) (handles : Handles) (w : World) {s' : Handles × World}
      → (other == id) ≡ false
      → and_then (close_scan other handles) (λ closed. ok (closed, w)) ≡ ok s'
      → Same id (handles, w) s'
  unfolding close_scan
  close-Same id other handles w {s'} differ e = elim (Bool-cases (other == 0)) [
    | inl null ↦
        subst (Same id (handles, w)) (ok-value (sym (ap close (if_true (other == 0) _ _ null)) ∙ e))
          (unchanged id (handles, w))
    | inr there ↦ elim (Option-cases (handles.boxes other)) [
      | inl closed ↦
          let fault : close_scan other handles ≡ err dead_block =
            rw (close_scan, there, closed) refl in
          cc (sym (ap close fault) ∙ e)
      | inr (h, opened) ↦
          let gone : close_scan other handles ≡ ok (set_box other none handles) =
            rw (close_scan, there, opened) refl in
          subst (Same id (handles, w)) (ok-value (sym (ap close gone) ∙ e))
            (set_box-Same id other none handles w w differ)
    ]
  ]
    where
      close : Result Fault Handles → Result Fault (Handles × World)
      close r = and_then r (λ closed. ok (closed, w))

  perform-Same :
      (id : ℕ) {call : Call} (handles : Handles) (w : World) {s' : Handles × World}
      → id ≤ handles.last
      → NotOn id call
      → perform call (handles, w) ≡ ok s'
      → Same id (handles, w) s'
  unfolding perform scan_open
  perform-Same id handles w le opens e = subst (Same id (handles, w)) (ok-value e) (record {
    box = if_false (suc handles.last == id) _ _ (ground arith);
    below = λ le'. omega arith;
  })
  perform-Same id handles w le (nexts {other = other} differ) e =
      next-Same id other handles w differ e
  perform-Same id handles w le (closes {other = other} differ) e =
      close-Same id other handles w differ e

  perform_all-Same :
      (id : ℕ) {calls : List Call} (handles : Handles) (w : World) {s' : Handles × World}
      → id ≤ handles.last
      → NoneOn id calls
      → perform_all calls (handles, w) ≡ ok s'
      → s'.0.boxes id ≡ handles.boxes id
  unfolding perform_all
  perform_all-Same id handles w le no_call e = ap (λ s. s.0.boxes id) (sym (ok-value e))
  perform_all-Same id handles w le (and_call {call = call} {calls = calls} one rest) e =
      let (s₁, first, later) = and_then-eq-ok (perform call (handles, w)) (perform_all calls) e in
      let same = perform-Same id handles w le one first in
      perform_all-Same id s₁.0 s₁.1 (same.below le) rest later ∙ same.box

  -- A scan that is opened still asks for its first page with its own request, whatever is opened, read
  -- and closed meanwhile through other handles, as long as these calls are ones that can be made.
  pub open_scan-Apart :
      (db : Duckdb) (config : RustExtClientConfig) (table_id : Text)
      (request : RustBridgeScanRequest) (handles : Handles) (w : World) {calls : List Call}
      {handles' : Handles} {w' : World}
      → (let (id, opened) = open_scan config table_id request handles in
          NoneOn id calls
          → perform_all calls (opened, w) ≡ ok (handles', w')
          → next_scan_batch list_rows db fuel id (handles', w')
            ≡ ok (
                thrown_message list_rows db (
                  put_back list_rows id handles' (
                    next_batch list_rows fuel (
                      new_handle config table_id (record {
                        filter = request.filter;
                        order = request.order;
                        limit = request.limit;
                      }),
                      w',
                    )))))
  unfolding open_scan scan_open next_scan_batch
  open_scan-Apart db config table_id request handles w {handles' = handles'} {w'} apart e =
      let (id, opened) = open_scan config table_id request handles in
      let same = perform_all-Same id opened w (omega arith) apart e in
      let fresh = if_true (id == id) _ _ (ground arith) in
      ap (λ r. and_then r (λ o. ok (thrown_message list_rows db o)))
        (scan_next-some id handles' w' (ground arith) (same ∙ fresh))
