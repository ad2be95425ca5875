-- ===== src/Remote/Message/Failure.antt =====
-- crates/treesync/src/remote/protocol.rs: what the two ends make of each other's failures and
-- options.
use treesync.Prelude.{List, [], ◌++◌, ◌≡◌, refl, ap}
use treesync.Error.{Text, codes, Error, ok, err}
use treesync.Reconcile.Config.{Verify, quick, checksum}
use treesync.Filter
use treesync.Filter.{Globs, Filter}
use treesync.Filter.Laws.{new-follows}
use treesync.Remote.Wire.{wire_verify, into_verify}
use treesync.Remote.Message.{
  kind_of, error_of, into_error, to_string, from_error, into_result, index_options,
}

abbrev pub message_of : Error → Text
message_of (Error.not_found m) = m
message_of (Error.permission_denied m) = m
message_of (Error.already_exists m) = m
message_of (Error.invalid_path m) = m
message_of (Error.config m) = m
message_of (Error.io m) = m
message_of (Error.unsupported m) = m
message_of (Error.internal m) = m

kind_of-error_of : (e : Error) (m : Text) → kind_of (error_of (kind_of e) m) ≡ kind_of e
unfolding kind_of error_of
kind_of-error_of (Error.not_found _) m = refl
kind_of-error_of (Error.permission_denied _) m = refl
kind_of-error_of (Error.already_exists _) m = refl
kind_of-error_of (Error.invalid_path _) m = refl
kind_of-error_of (Error.config _) m = refl
kind_of-error_of (Error.io _) m = refl
kind_of-error_of (Error.unsupported _) m = refl
kind_of-error_of (Error.internal _) m = refl

message_of-error_of : (e : Error) (m : Text) → message_of (error_of (kind_of e) m) ≡ m
unfolding kind_of error_of
message_of-error_of (Error.not_found _) m = refl
message_of-error_of (Error.permission_denied _) m = refl
message_of-error_of (Error.already_exists _) m = refl
message_of-error_of (Error.invalid_path _) m = refl
message_of-error_of (Error.config _) m = refl
message_of-error_of (Error.io _) m = refl
message_of-error_of (Error.unsupported _) m = refl
message_of-error_of (Error.internal _) m = refl

verify-crosses : (v : Verify) → into_verify (wire_verify v) ≡ v
unfolding into_verify wire_verify
verify-crosses quick = refl
verify-crosses checksum = refl

-- An agent's failure reaches the client as a failure of the same category, whose message names the
-- agent's side in front of the agent's own description of the failure.
pub failure-crosses :
    (e : Error)
    → (f : Error) × (into_result (from_error e) ≡ err f)
      × (kind_of f ≡ kind_of e)
      × (message_of f ≡ codes "agent: " ++ to_string e)
unfolding into_result from_error into_error
failure-crosses e = (_, refl, kind_of-error_of e _, message_of-error_of e _)

-- Both trees are indexed alike: from the patterns and the mode that the client sends, the agent
-- builds the client's own filter and mode.
pub options-agree :
    (globs : Globs) (exclude : List Text) (filter : Filter) (verify : Verify)
    → Filter.new globs exclude ≡ ok filter
    → index_options globs filter.patterns (wire_verify verify)
      ≡ ok (record { filter = filter; verify = verify })
unfolding index_options
options-agree globs exclude filter verify e =
    rw ((new-follows globs exclude filter [] e).0)
      (ap (λ (v : Verify). ok (record { filter = filter; verify = v })) (verify-crosses verify))
