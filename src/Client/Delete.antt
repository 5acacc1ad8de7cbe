-- ===== src/Client/Delete.antt =====
-- What a DELETE sends.
use duckdb_coda.Prelude.{
  ℕ, zero, suc, ◌<◌, ◌≡◌, refl, ap, ◌∙◌, ◌∷◌, map, length, length-tabulate, tabulate, is_empty,
  is_empty_of_pos, if_false, Result, ok, err, and_run, arith,
}
use duckdb_coda.Text.{Text, codes}
use duckdb_coda.Abi.{RustExtClientConfig}
use duckdb_coda.Duckdb.{Duckdb, DataChunk, Exception, invalid_input}
use duckdb_coda.Messages.{with_context}
use duckdb_coda.Table.{RustBridgeTableInfo}
use duckdb_coda.Platform.{Platform, SdkRequest, Json, object, field, end, string, json_array}
use duckdb_coda.Sdk.{endpoint}
use duckdb_coda.Mutation.{delete_body, perform}
use duckdb_coda.Mutation
use duckdb_coda.Client.{chunk_row_ids, thrown, delete_rows}

map-tabulate :
    {A B : Type 0} (f : A → B) (n : ℕ) (g : ℕ → A)
    → map f (tabulate n g) ≡ tabulate n (λ i. f (g i))
map-tabulate f zero g = refl
map-tabulate f (suc n) g = ap (λ t. f (g 0) ∷ t) (map-tabulate f n (λ i. g (suc i)))

pub length-chunk_row_ids :
    (db : Duckdb) (chunk : DataChunk db.Value) (index : ℕ)
    → length (chunk_row_ids db chunk index) ≡ chunk.size
unfolding chunk_row_ids
length-chunk_row_ids db chunk index = length-tabulate chunk.size _

module _ (db : Duckdb) (platform : Platform db.Double) (config : RustExtClientConfig) where
  open db use {Value, Double, value_to_string}
  open platform use {World, json_text, build_delete_rows}

  -- The JSON of a DELETE of a chunk: the ids of its rows in order.
  abbrev pub delete_json : DataChunk Value → ℕ → Json Double
  delete_json chunk index = object (
      field (codes "rowIds")
        (json_array (
          tabulate chunk.size
            (λ row_idx. string (value_to_string (chunk.get_value index row_idx)))))
        end)

  abbrev pub delete_request : RustBridgeTableInfo → DataChunk Value → ℕ → Result Text SdkRequest
  delete_request table chunk index = build_delete_rows (endpoint platform config) (record {
    doc_id = config.resource;
    table_id_or_name = table.table.id;
    payload = json_text (delete_json chunk index);
  })

  -- The result of a DELETE, by how its one request went.
  abbrev pub delete_result : ℕ → Result Text Unit × World → Result Exception ℕ × World
  delete_result count (ok _, w) = (ok count, w)
  delete_result count (err message, w) =
      (err (invalid_input (with_context (codes "failed to delete Coda rows") message)), w)

  delete_body-json :
      (chunk : DataChunk Value) (index : ℕ)
      → delete_body platform (chunk_row_ids db chunk index) ≡ json_text (delete_json chunk index)
  unfolding delete_body chunk_row_ids
  delete_body-json chunk index =
      ap (λ ids. json_text (object (field (codes "rowIds") (json_array ids) end)))
        (map-tabulate string chunk.size
          (λ row_idx. value_to_string (chunk.get_value index row_idx)))

  delete_result-perform :
      (n count : ℕ) (answer : Result Text Unit × World)
      → n ≡ count
      → thrown db (codes "failed to delete Coda rows") (and_run answer (λ _ w'. (ok n, w')))
        ≡ delete_result count answer
  delete_result-perform n count (ok _, w) e = ap (λ k. (ok k, w)) e
  delete_result-perform n count (err message, w) e = refl

  -- A DELETE of a chunk with rows sends one request, with the ids of its rows in order. It reports
  -- all rows of the chunk if the request goes through, and throws its error otherwise.
  pub delete_rows_lem :
      (table : RustBridgeTableInfo) (chunk : DataChunk Value) (index : ℕ) (w : World)
      → 0 < chunk.size
      → delete_rows db platform config table chunk index w
        ≡ delete_result chunk.size (perform platform config (delete_request table chunk index) w)
  unfolding delete_rows Mutation.delete_rows
  delete_rows_lem table chunk index w some_row =
      let some_id =
        is_empty_of_pos (chunk_row_ids db chunk index)
          (omega (arith, length-chunk_row_ids db chunk index, some_row)) in
      ap (thrown db (codes "failed to delete Coda rows"))
        (if_false (is_empty (chunk_row_ids db chunk index)) _ _ some_id)
      ∙ rw (delete_body-json chunk index) (
          delete_result-perform (length (chunk_row_ids db chunk index)) chunk.size
            (perform platform config (delete_request table chunk index) w)
            (length-chunk_row_ids db chunk index))
