-- ===== src/Compress.antt =====
-- src/compress.rs: gzip with the data itself where the library fails. The program calls only
-- `gunzip_maybe`.
use easytier_wsrelay.Base.{Text, unwrap_or}
use easytier_wsrelay.Proto.{Externals}

unfoldable pub gzip_maybe : Externals → Text → Text
gzip_maybe ext bytes = unwrap_or (ext.gzip bytes) bytes

unfoldable pub gunzip_maybe : Externals → Text → Text
gunzip_maybe ext bytes = unwrap_or (ext.gunzip bytes) bytes
