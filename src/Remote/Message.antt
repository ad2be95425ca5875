-- ===== src/Remote/Message.antt =====
-- crates/treesync/src/remote/protocol.rs: the requests, the frames of a transfer, the replies, and
-- how a failure crosses the wire.
pub mod Failure
use treesync.Prelude.{ℕ, List, [], ◌++◌, Bool, Option}
use treesync.FilePath.{Bytes}
use treesync.Error.{
  Text, codes, Error, not_found, permission_denied, already_exists, invalid_path, config, io,
  unsupported, internal, Result, ok, err, ◌>>=◌,
}
use treesync.Filter
use treesync.Filter.{Globs, Filter}
use treesync.Reconcile.Config.{Verify}
use treesync.Remote.Wire.{
  WireTime, WirePath, WireScope, WireVerify, WirePreserve, WireMetadata, WireIndex, into_verify,
}

abbrev pub protocol_version : ℕ
protocol_version = 2

pub data Request : Type 0 where
  hello : (version : ℕ) → Request
  index : (scope : WireScope) (exclude : List Text) (verify : WireVerify) → Request
  create_dir write_file remove : WirePath → Request
  create_symlink : (path target : WirePath) → Request
  rename : (source target : WirePath) → Request
  set_metadata : WirePath → WireMetadata → WirePreserve → Request
  goodbye : Request
  signature : (path : WirePath) (block_size : ℕ) → Request
  patch_file : (path : WirePath) (resume_from : ℕ) → Request
  resume_state : WirePath → Request

pub data Chunk : Type 0 where
  data_of : Bytes → Chunk
  commit : (mtime : WireTime) → Chunk
  abort : (reason : Text) → Chunk

-- The flat form of a signature: a weak and a strong checksum for each block.
pub record WireSignature : Type 0 where
  pub block_size : ℕ
  pub blocks : List (ℕ × Bytes)

pub data WireErrorKind : Type 0 where
  kind_not_found kind_permission_denied kind_already_exists kind_invalid_path : WireErrorKind
  kind_config kind_io kind_unsupported kind_internal : WireErrorKind

pub data Response : Type 0 where
  hello : (version : ℕ) (build : Text) → Response
  done : Response
  index : WireIndex → Response
  error : (kind : WireErrorKind) (message : Text) → Response
  signature : WireSignature → Response
  resume_state : (bytes : ℕ) (hash : Bytes) → Response

-- `WireErrorKind::of`
unfoldable pub kind_of : Error → WireErrorKind
kind_of (not_found m) = kind_not_found
kind_of (permission_denied m) = kind_permission_denied
kind_of (already_exists m) = kind_already_exists
kind_of (invalid_path m) = kind_invalid_path
kind_of (config m) = kind_config
kind_of (io m) = kind_io
kind_of (unsupported m) = kind_unsupported
kind_of (internal m) = kind_internal

-- The error with a message, by its kind.
unfoldable pub error_of : WireErrorKind → Text → Error
error_of kind_not_found m = not_found m
error_of kind_permission_denied m = permission_denied m
error_of kind_already_exists m = already_exists m
error_of kind_invalid_path m = invalid_path m
error_of kind_config m = config m
error_of kind_io m = io m
error_of kind_unsupported m = unsupported m
error_of kind_internal m = internal m

-- `WireErrorKind::into_error`
unfoldable pub into_error : WireErrorKind → Text → Error
unfolding error_of
into_error kind message = error_of kind (codes "agent: " ++ message)

-- `Display` of an error: its category, then its message.
unfoldable pub to_string : Error → Text
to_string (not_found m) = codes "not found: " ++ m
to_string (permission_denied m) = codes "permission denied: " ++ m
to_string (already_exists m) = codes "already exists: " ++ m
to_string (invalid_path m) = codes "invalid path: " ++ m
to_string (config m) = codes "invalid configuration: " ++ m
to_string (io m) = codes "io error: " ++ m
to_string (unsupported m) = codes "not supported yet: " ++ m
to_string (internal m) = codes "internal error: " ++ m

-- `Response::from_error`
unfoldable pub from_error : Error → Response
unfolding kind_of to_string
from_error e = error (kind_of e) (to_string e)

-- `Response::into_result`
unfoldable pub into_result : Response → Result Response
unfolding into_error
into_result (error kind message) = err (into_error kind message)
into_result other = ok other

pub record IndexOptions : Type 0 where
  pub filter : Filter
  pub verify : Verify

unfoldable pub index_options : Globs → List Text → WireVerify → Result IndexOptions
unfolding into_verify Filter.new
index_options globs exclude verify = do
  filter ← Filter.new globs exclude
  ok (record { filter = filter; verify = into_verify verify })
