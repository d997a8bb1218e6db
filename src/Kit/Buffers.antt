-- ===== src/Kit/Buffers.antt =====
-- src/zzlab/testkit.h: frames and the memory behind them.
use qcap_demos.Prelude.{ℕ, ◌∷◌, ◌==◌, if◌then◌else◌, Option, none, some}
use qcap_demos.Kit.{
  rcbuffer, frame_buffer, cuda_buffer, cuda_host_buffer, cuda_managed_buffer, qdmabuf, nvbuf,
  Resource, took, Library, ok, err, M, pure, fail, ◌>>=◌, ◌>>◌, defer, object, make, take_it,
}
use qcap_demos.Kit.Layout.{Layout, ColorSpace, layout}

-- `QCAP_RS_ERROR_OUT_OF_MEMORY` and `QCAP_RS_ERROR_INVALID_PARAMETER`.
module _ (library : Library) (out_of_memory invalid_parameter : ℕ) where
  -- An allocation that answers yes or no, and whose failure has one code.
  abbrev pub allocate : Resource → M (Unit {0})
  allocate r w =
      let code = library.takes w.log r in
      let w' = record w { log = took r (code == 0) ∷ w.log } in
      (if code == 0 then ok tt else err out_of_memory, w')

  -- `new_video_sysbuf` and `new_audio_sysbuf`, which differ in the properties that they set.
  unfoldable pub new_sysbuf : M ℕ
  new_sysbuf = do
    b ← make library rcbuffer
    defer (object rcbuffer b)
    allocate (object frame_buffer b)
    defer (object frame_buffer b)
    pure b

  unfoldable pub new_qdmabuf : M ℕ
  new_qdmabuf = do
    b ← make library rcbuffer
    defer (object rcbuffer b)
    take_it library (object qdmabuf b)
    defer (object qdmabuf b)
    pure b

  abbrev pub with_layout : {A : Type 0} → Option Layout → M A → M A
  with_layout none m = fail invalid_parameter
  with_layout (some l) m = m

  -- The frame that is made first is not the one that is given.
  unfoldable pub new_video_qdmabuf : ColorSpace → ℕ → ℕ → M ℕ
  unfolding new_qdmabuf
  new_video_qdmabuf space width height = do
    unused ← make library rcbuffer
    defer (object rcbuffer unused)
    with_layout (layout space width height) new_qdmabuf

  unfoldable pub new_video_nvbuf : M ℕ
  new_video_nvbuf = do
    b ← make library rcbuffer
    defer (object rcbuffer b)
    take_it library (object nvbuf b)
    defer (object nvbuf b)
    pure b

  unfoldable pub new_video_cudabuf : M ℕ
  new_video_cudabuf = do
    b ← make library rcbuffer
    defer (object rcbuffer b)
    allocate (object cuda_buffer b)
    defer (object cuda_buffer b)
    pure b

  unfoldable pub new_video_cudabuf_host : M ℕ
  new_video_cudabuf_host = do
    b ← make library rcbuffer
    defer (object rcbuffer b)
    allocate (object cuda_host_buffer b)
    defer (object cuda_host_buffer b)
    pure b

  unfoldable pub new_video_cudabuf_managed : M ℕ
  new_video_cudabuf_managed = do
    b ← make library rcbuffer
    defer (object rcbuffer b)
    allocate (object cuda_managed_buffer b)
    defer (object cuda_managed_buffer b)
    pure b
