-- ===== src/Civitai/Stream.antt =====
-- app/loras/civitai.py: the download of the file into the temporary file, with its three nets.
use local_image_generator_se.Common.{
  ℕ, ◌+◌, ◌-◌, ◌*◌, String, Bool, ◌&&◌, Option, none, some, List, [], ◌∷◌, ◌++◌, leb, ltb, length,
  if◌then◌else◌,
}
use local_image_generator_se.Common.Effect.{◌>>=◌, ◌>>◌, answer, modify, throw, give}
use local_image_generator_se.Common.Text.{Text}
use local_image_generator_se.Fetches.{set_progress}
use local_image_generator_se.Civitai.{
  Bytes, Raised, download_too_large, slow_download, mid_stream_disk_full, Files, Chunk, Download,
  refused, stream, World, Fetching, on_store, on_files, note_download,
}

abbrev pub progress_update_every : ℕ
progress_update_every = 4 * 1024 * 1024

abbrev pub min_throughput_bytes_per_sec : ℕ
min_throughput_bytes_per_sec = 10 * 1024

-- _THROUGHPUT_GRACE_SECONDS, in microseconds
abbrev pub throughput_grace : ℕ
throughput_grace = 30 * 1000000

abbrev pub disk_recheck_every_bytes : ℕ
disk_recheck_every_bytes = 16 * 1024 * 1024

abbrev pub disk_recheck_headroom_multiplier : ℕ
disk_recheck_headroom_multiplier = 2

-- The locals of the loop; the hasher is the bytes that it was given.
pub record Progress : Type 0 where
  pub hashed : Bytes
  pub written : ℕ
  pub last_progress_update : ℕ
  pub last_disk_check : ℕ

abbrev bytes_or_empty : Option Bytes → Bytes
bytes_or_empty none = []
bytes_or_empty (some b) = b

abbrev pub append_tmp : Bytes → Files → Files
append_tmp bytes f = record f { tmp = some (bytes_or_empty f.tmp ++ bytes) }

-- `if self._file_max_bytes and written + len(chunk) > self._file_max_bytes`
unfoldable pub exceeds_cap : World → ℕ → Bool
exceeds_cap world n = ltb 0 world.file_max_bytes && ltb world.file_max_bytes n

-- `written / elapsed` below the floor, in bytes for a second.
unfoldable pub too_slow : ℕ → ℕ → Bool
too_slow written elapsed =
    ltb throughput_grace elapsed && ltb (written * 1000000) (min_throughput_bytes_per_sec * elapsed)

unfoldable pub recheck_due : Progress → Bool
recheck_due p = leb disk_recheck_every_bytes (p.written - p.last_disk_check)

unfoldable pub disk_short : ℕ → Progress → ℕ → Bool
disk_short expected_size p free =
    ltb free ((expected_size - p.written) * disk_recheck_headroom_multiplier)

abbrev pub grown : Progress → Chunk → Progress
grown p c = record p { hashed = p.hashed ++ c.bytes; written = p.written + length c.bytes }

abbrev pub rechecked : Progress → Progress
rechecked p = if recheck_due p then record p { last_disk_check = p.written } else p

-- The progress is stored at every fourth mebibyte.
unfoldable pub report : World → String → Progress → Fetching Progress
unfolding set_progress
report world id p =
    if leb progress_update_every (p.written - p.last_progress_update)
    then on_store (set_progress (world.clock 3) id p.written)
      >> give (record p { last_progress_update = p.written })
    else give p

abbrev pub write_error : Option Raised → Fetching (Unit {0})
write_error none = give tt
write_error (some e) = throw e

-- One chunk that is not empty.
unfoldable pub take_chunk : World → String → Text → ℕ → Chunk → Progress → Fetching Progress
unfolding exceeds_cap too_slow recheck_due disk_short report
take_chunk world id name expected_size c p =
    let q = grown p c in
    if exceeds_cap world q.written
    then throw download_too_large
    else (write_error c.on_write
        >> modify (on_files name (append_tmp c.bytes))
        >> (if too_slow q.written c.elapsed
            then throw slow_download
            else if recheck_due q && disk_short expected_size q c.free
            then throw mid_stream_disk_full
            else report world id (rechecked q)))

-- `if not chunk: continue`
unfoldable pub one_chunk : World → String → Text → ℕ → Chunk → Progress → Fetching Progress
unfolding take_chunk
one_chunk world id name expected_size c p =
    if ltb 0 (length c.bytes) then take_chunk world id name expected_size c p else give p

unfoldable pub chunks_loop :
    World → String → Text → ℕ → List Chunk → Option Raised → Progress → Fetching Progress
unfolding one_chunk
chunks_loop world id name expected_size [] none p = give p
chunks_loop world id name expected_size [] (some e) p = throw e
chunks_loop world id name expected_size (c ∷ cs) e p =
    one_chunk world id name expected_size c p >>= λ q.
    chunks_loop world id name expected_size cs e q

abbrev pub at_start : Progress
at_start = record { hashed = []; written = 0; last_progress_update = 0; last_disk_check = 0 }

abbrev pub finish : World → String → Progress → Fetching Text
finish world id p =
    on_store (set_progress (world.clock 4) id p.written) >> give (world.sha256 p.hashed)

-- The body of the stream: opening the temporary file empties it.
unfoldable pub download : World → String → Text → ℕ → Download → Fetching Text
unfolding chunks_loop set_progress
download world id name expected_size (refused e) = throw e
download world id name expected_size (stream chunks e) =
    answer world.on_mkdir
    >> modify (on_files name λ f. record f { tmp = some [] })
    >> chunks_loop world id name expected_size chunks e at_start
    >>= finish world id

-- The token is not sent along, and redirects are followed.
unfoldable pub stream_download : World → String → Text → Text → ℕ → Fetching Text
unfolding download
stream_download world id url name expected_size =
    modify (note_download world url) >> download world id name expected_size (world.on_stream url)
