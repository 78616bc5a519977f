-- ===== src/Utils.antt =====
-- utils/files.go: `MoveFile`, which copies.
pub mod Moved
use cf_redis_broker.Base.{String}
use cf_redis_broker.Base.Act.{Act, ◌>>=◌, ◌>>◌}
use cf_redis_broker.Os.{World, os_open, read_text, write_text, os_remove}
use cf_redis_broker.Os.Paths.{FilePath}

-- `os.Create` empties the destination before the source is read.
unfoldable pub move_file : FilePath → FilePath → Act World (Unit {0})
move_file source destination = do
  os_open source
  write_text destination ""
  content ← read_text source
  write_text destination content
  os_remove source
