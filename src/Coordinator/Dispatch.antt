-- ===== src/Coordinator/Dispatch.antt =====
-- `worker_dispatch` of copy.rs and the decisions of a run that it reads: which files go to a worker.
pub mod Safe
mod Examples
use bigcp.Base.{
  ℕ, min, Bool, true, false, not, ◌&&◌, ◌||◌, Option, none, some, ltb, leb, if◌then◌else◌,
}
use bigcp.Win.Types.{EndpointKind, local, unc, wsl_unc, FileSystem, ntfs}
use bigcp.Profile.Data.{
  TransportProfile, TransportKind, standard, redirector_pipeline, wsl_pipeline, same_spindle_phases,
}
use bigcp.Engine.Segments.{is_wsl, segment_threshold_bytes}

abbrev pub is_redirector : TransportProfile → Bool
is_redirector profile = elim profile.kind [
  | redirector_pipeline ↦ true
  | wsl_pipeline ↦ true
  | standard ↦ false
  | same_spindle_phases ↦ false
]

abbrev is_standard : TransportProfile → Bool
is_standard profile = elim profile.kind [ standard ↦ true | _ ↦ false ]

abbrev is_ntfs : FileSystem → Bool
is_ntfs ntfs = true
is_ntfs _ = false

abbrev is_local : EndpointKind → Bool
is_local local = true
is_local _ = false

unfoldable pub should_use_relative_ntfs_creates :
    FileSystem → EndpointKind → FileSystem → EndpointKind → TransportProfile → Bool
should_use_relative_ntfs_creates source source_endpoint destination destination_endpoint transport =
    is_ntfs source
    && is_ntfs destination
    && is_local source_endpoint
    && is_local destination_endpoint
    && is_standard transport

-- In microseconds.
abbrev pub stripe_latency_floor : ℕ
stripe_latency_floor = 250

unfoldable pub remote_source_striping : EndpointKind → Option ℕ → Bool
remote_source_striping wsl_unc latency = true
remote_source_striping unc none = false
remote_source_striping unc (some latency) = leb stripe_latency_floor latency
remote_source_striping local latency = false

abbrev pub single_directory_lanes : ℕ → ℕ
single_directory_lanes entries = if leb 512 entries then 4 else 1

pub record WorkerDispatch : Type 0 where
  pub promote_threshold : Option ℕ
  pub directory_affine : Bool

-- The arguments of `worker_dispatch`.
pub record DispatchFacts : Type 0 where
  pub transport : TransportProfile
  pub destination_is_wsl : Bool
  pub stripe_source_reads : Bool
  pub journal_available : Bool
  pub unnamed_size : ℕ
  pub large_threshold : ℕ
  pub checkpoint_threshold : ℕ
  pub preserve_sparse : Bool

unfoldable pub redirector_stream : DispatchFacts → Bool
redirector_stream f =
    is_redirector f.transport
    && not (is_wsl f.transport && leb segment_threshold_bytes f.unnamed_size)
    && (not f.journal_available || ltb f.unnamed_size f.checkpoint_threshold)

unfoldable pub stays_inline : DispatchFacts → Bool
unfolding redirector_stream
stays_inline f =
    f.preserve_sparse
    || (f.journal_available && leb f.checkpoint_threshold f.unnamed_size)
    || (leb f.large_threshold f.unnamed_size && not (redirector_stream f))

unfoldable pub promote_threshold_of : DispatchFacts → Option ℕ
promote_threshold_of f =
    if is_redirector f.transport
    then (if f.journal_available then some f.checkpoint_threshold else none)
    else if f.journal_available
    then some (min f.large_threshold f.checkpoint_threshold)
    else some f.large_threshold

unfoldable pub worker_dispatch : DispatchFacts → Option WorkerDispatch
worker_dispatch f =
    if stays_inline f
    then none
    else some (record {
      promote_threshold = promote_threshold_of f;
      directory_affine =
          ltb f.unnamed_size f.large_threshold
          && not f.destination_is_wsl
          && not f.stripe_source_reads;
    })
