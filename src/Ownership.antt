-- ===== src/Ownership.antt =====
-- Who frees what the Rust side allocates: `RustBridgeCatalogResponse`, `RustBridgeScanBatch`,
-- `RustBridgeScanHandle` and `RustBridgeAttachConfig` of src/include/rust_bridge_client.hpp. The block
-- of a wrapper is known by its address, with 0 for `{}` and `nullptr`; it stands for all that the
-- release function of the class frees with it.
pub mod Counts
pub mod Reset
pub mod Sound
pub mod Classes
pub mod Replace
use duckdb_coda.Prelude.{
  ℕ, ◌==◌, ◌+◌, Option, none, some, List, [], ◌∷◌, ltb, if◌then◌else◌, Result, ok, err, and_then,
}

-- What can go wrong: a block is freed that is not allocated, or the call is one that the language
-- or the allocator rules out.
pub data Fault : Type 0 where
  dead_block ruled_out : Fault

unfoldable pub hit : ℕ → ℕ → ℕ
hit r x = if r == x then 1 else 0

-- How often a block stands in a list.
unfoldable pub count : ℕ → List ℕ → ℕ
unfolding hit
count r [] = 0
count r (x ∷ xs) = hit r x + count r xs

unfoldable pub remove : ℕ → List ℕ → List ℕ
remove r [] = []
remove r (x ∷ xs) = if r == x then xs else x ∷ remove r xs

-- The release of an allocated block.
unfoldable pub free_allocated : ℕ → List ℕ → Result Fault (List ℕ)
unfolding count
free_allocated raw live = if ltb 0 (count raw live) then ok (remove raw live) else err dead_block

-- `vec_from_raw_parts` and the drop of its result: a null pointer is an empty vector.
unfoldable pub free_block : ℕ → List ℕ → Result Fault (List ℕ)
unfolding free_allocated
free_block raw live = if raw == 0 then ok live else free_allocated raw live

-- `rust_ext_scan_close`
unfoldable pub scan_close : ℕ → List ℕ → Result Fault (List ℕ)
unfolding free_allocated
scan_close raw live = if raw == 0 then ok live else free_allocated raw live

-- A wrapper class: what its `Reset` does with the block, before the field is made null. The
-- constructors and the moves of the four classes are the same.
pub record WrapperClass : Type 0 where
  pub release : ℕ → List ℕ → Result Fault (List ℕ)

abbrev pub catalog_response : WrapperClass
catalog_response = record { release = free_block }

abbrev pub scan_batch : WrapperClass
scan_batch = record { release = free_block }

abbrev pub attach_config : WrapperClass
attach_config = record { release = free_block }

unfoldable pub close_handle : ℕ → List ℕ → Result Fault (List ℕ)
unfolding scan_close
close_handle handle live = if handle == 0 then ok live else scan_close handle live

abbrev pub scan_handle : WrapperClass
scan_handle = record { release = close_handle }

-- The objects of a class that exist, by their address, each with its field.
abbrev pub Objects : Type 0
Objects = List (ℕ × ℕ)

unfoldable pub raw_of : ℕ → Objects → Option ℕ
raw_of this [] = none
raw_of this ((object, raw) ∷ objects) = if this == object then some raw else raw_of this objects

unfoldable pub set_raw : ℕ → ℕ → Objects → Objects
set_raw this raw [] = []
set_raw this raw ((object, old) ∷ objects) =
    if this == object then (object, raw) ∷ objects else (object, old) ∷ set_raw this raw objects

unfoldable pub end_object : ℕ → Objects → Objects
end_object this [] = []
end_object this ((object, raw) ∷ objects) =
    if this == object then objects else (object, raw) ∷ end_object this objects

pub record Memory : Type 0 where
  pub live : List ℕ
  pub objects : Objects

abbrev pub empty_memory : Memory
empty_memory = record { live = []; objects = [] }

-- What the callers do with the objects of a class: the constructor from a result of the Rust side
-- comes with the block that the Rust side has allocated for it.
pub data Operation : Type 0 where
  default_construct destroy : ℕ → Operation
  construct move_construct move_assign : ℕ → ℕ → Operation

-- The field of an object that exists.
unfoldable pub with_raw : {A : Type 0} → ℕ → Memory → (ℕ → Result Fault A) → Result Fault A
unfolding raw_of
with_raw this m f = elim (raw_of this m.objects) [ none ↦ err ruled_out | some raw ↦ f raw ]

-- A new object at an address where there is none.
unfoldable pub new_object : ℕ → ℕ → Memory → Result Fault Memory
unfolding raw_of
new_object this raw m = elim (raw_of this m.objects) [
  | none ↦ ok (record m { objects = (this, raw) ∷ m.objects })
  | some old ↦ err ruled_out
]

-- A block that the Rust side hands over: null, or one that was not allocated before.
unfoldable pub allocate : ℕ → Memory → Result Fault Memory
unfolding count
allocate raw m =
    if raw == 0
    then ok m
    else if ltb 0 (count raw m.live)
    then err ruled_out
    else ok (record m { live = raw ∷ m.live })

module _ (class : WrapperClass) where
  -- `Reset`
  unfoldable pub reset : ℕ → Memory → Result Fault Memory
  unfolding with_raw set_raw
  reset this m = with_raw this m (λ raw.
      and_then (class.release raw m.live)
        (λ live. ok (record { live = live; objects = set_raw this 0 m.objects })))

  -- The move constructor: `catalog(other.catalog)`, then `other.catalog = {}`.
  unfoldable pub construct_moved : ℕ → ℕ → Memory → Result Fault Memory
  unfolding with_raw set_raw new_object
  construct_moved this other m =
      with_raw other m
        (λ raw. new_object this raw (record m { objects = set_raw other 0 m.objects }))

  -- `catalog = other.catalog`, then `other.catalog = {}`.
  unfoldable pub take_over : ℕ → ℕ → Memory → Result Fault Memory
  unfolding with_raw set_raw
  take_over this other m =
      with_raw other m
        (λ raw. ok (record m { objects = set_raw other 0 (set_raw this raw m.objects) }))

  -- The move assignment.
  unfoldable pub assign_moved : ℕ → ℕ → Memory → Result Fault Memory
  unfolding reset take_over
  assign_moved this other m =
      if this == other then ok m else and_then (reset this m) (take_over this other)

  unfoldable pub ended : ℕ → Memory → Result Fault Memory
  unfolding end_object
  ended this m = ok (record m { objects = end_object this m.objects })

  -- The destructor, after which the object does not exist.
  unfoldable pub destruct : ℕ → Memory → Result Fault Memory
  unfolding reset ended
  destruct this m = and_then (reset this m) (ended this)

  unfoldable pub step : Operation → Memory → Result Fault Memory
  unfolding new_object allocate construct_moved assign_moved destruct
  step (default_construct this) m = new_object this 0 m
  step (construct this raw) m = and_then (allocate raw m) (new_object this raw)
  step (move_construct this other) m = construct_moved this other m
  step (move_assign this other) m = assign_moved this other m
  step (destroy this) m = destruct this m

  unfoldable pub run : List Operation → Memory → Result Fault Memory
  unfolding step
  run [] m = ok m
  run (operation ∷ operations) m = and_then (step operation m) (run operations)

-- The constructors, the moves and the destructor of each class.
abbrev pub catalog_response_step : Operation → Memory → Result Fault Memory
catalog_response_step = step catalog_response

abbrev pub scan_batch_step : Operation → Memory → Result Fault Memory
scan_batch_step = step scan_batch

abbrev pub scan_handle_step : Operation → Memory → Result Fault Memory
scan_handle_step = step scan_handle

abbrev pub attach_config_step : Operation → Memory → Result Fault Memory
attach_config_step = step attach_config

-- `object = client.Call()`: the result of the Rust side in a temporary, moved and destroyed.
abbrev pub assign_result : ℕ → ℕ → ℕ → List Operation
assign_result this temporary raw =
    construct temporary raw ∷ move_assign this temporary ∷ destroy temporary ∷ []
