-- ===== src/Http/Stable.antt =====
-- The calls of the writers of src/http.go, and the properties of the tracker that all of them preserve.
use umans_dash_go.Prelude.{
  ℕ, ◌≡◌, refl, Bool, true, false, ◌||◌, Option, List, [], ◌∷◌, if_split, subst, Bytes,
}
use umans_dash_go.Json.{Json, Fields}
use umans_dash_go.Tracker.{Tracker, write_header, commit_sse, is_committed}
use umans_dash_go.Http.{
  write_streamed, write_plain, after_commit, json_type, Writer, Marshalled, write_bytes, safe_flush,
  send_status, write_json, write_sse_headers, marshalled, marshal_error,
  flush_vision_handoff_keepalive, is_streaming, set_content_type,
}
use umans_dash_go.Http.Errors.{
  ErrorFormat, write_error, write_queue_full_error, write_passthrough_error, write_sse_error_event,
  openai, anthropic,
}

-- A property of the tracker that its operations preserve.
pub record Stable (P : Tracker → Type 0) : Type 0 where
  pub on_header : (status : ℕ) (t : Tracker) → P t → P (write_header status t)
  pub on_write : (b : Bytes) (w : Writer) → P w.tracker → P (write_bytes b w).tracker
  pub on_flush : (w : Writer) → P w.tracker → P (safe_flush w).tracker
  pub on_stream : (t : Tracker) → P t → P (commit_sse t).0

module _ {P : Tracker → Type 0} (s : Stable P) where
  write_streamed-Stable :
      (m : Marshalled) (w : Writer) → P w.tracker → P (write_streamed m w).tracker
  unfolding write_streamed
  write_streamed-Stable (marshal_error e) w h = s.on_flush _ (s.on_write _ _ h)
  write_streamed-Stable (marshalled b) w h =
      s.on_flush _ (s.on_write _ _ (s.on_write _ _ (s.on_write _ _ h)))

  write_plain-Stable :
      (marshal : Json → Marshalled) (status : ℕ) (m : Marshalled) (w : Writer)
      → P w.tracker
      → P (write_plain marshal status m w).tracker
  unfolding write_plain
  write_plain-Stable marshal status (marshal_error e) w h = s.on_write _ _ (s.on_header _ _ h)
  write_plain-Stable marshal status (marshalled b) w h =
      if_split (λ x. P x.tracker) (is_committed w.tracker) w
        (write_bytes b (send_status status (set_content_type json_type w))) (λ out. h)
        (λ free. s.on_write _ _ (s.on_header _ _ h))

  write_json-Stable :
      (marshal : Json → Marshalled) (status : ℕ) (payload : Json) (w : Writer)
      → P w.tracker
      → P (write_json marshal status payload w).tracker
  unfolding write_json
  write_json-Stable marshal status payload w h =
      if_split (λ x. P x.tracker) (is_streaming w) (write_streamed (marshal payload) w)
        (write_plain marshal status (marshal payload) w)
        (λ streaming. write_streamed-Stable (marshal payload) w h)
        (λ plain. write_plain-Stable marshal status (marshal payload) w h)

  write_queue_full_error-Stable :
      (marshal : Json → Marshalled) (format : ErrorFormat) (w : Writer)
      → P w.tracker
      → P (write_queue_full_error marshal format w).tracker
  unfolding write_queue_full_error write_error
  write_queue_full_error-Stable marshal openai w h = write_json-Stable marshal _ _ _ h
  write_queue_full_error-Stable marshal anthropic w h = write_json-Stable marshal _ _ _ h

  write_sse_error_event-Stable :
      (marshal : Json → Marshalled) (kind message : Bytes) (w : Writer)
      → P w.tracker
      → P (write_sse_error_event marshal kind message w).tracker
  unfolding write_sse_error_event
  write_sse_error_event-Stable marshal kind message w h =
      if_split (λ x. P x.tracker) (w.tracker.hijacked || w.tracker.aborted) w _ (λ taken. h)
        (λ free. s.on_flush _ (s.on_write _ _ (s.on_write _ _ (s.on_write _ _ (s.on_write _ _ h)))))

  write_sse_headers-Stable : (w : Writer) → P w.tracker → P (write_sse_headers w).tracker
  unfolding write_sse_headers
  write_sse_headers-Stable w h =
      if_split (λ x. P x.tracker) (is_streaming w) w (after_commit w (commit_sse w.tracker))
        (λ streaming. h) (λ plain. go (commit_sse w.tracker) refl)
    where
      go : (c : Tracker × Bool) → commit_sse w.tracker ≡ c → P (after_commit w c).tracker
      go (t, true) e = s.on_flush _ (subst (λ c. P c.0) e (s.on_stream w.tracker h))
      go (t, false) e = h

  flush_vision_handoff_keepalive-Stable :
      (w : Writer) → P w.tracker → P (flush_vision_handoff_keepalive w).0.tracker
  unfolding flush_vision_handoff_keepalive
  flush_vision_handoff_keepalive-Stable w h =
      if_split (λ (x : Writer × Bool). P x.0.tracker) (is_streaming w) _ _
        (λ streaming. s.on_flush _ (s.on_write _ _ h))
        (λ plain. s.on_flush _ (s.on_write _ _ (write_sse_headers-Stable w h)))

-- One call of a writer of src/http.go.
pub data Send : Type 0 where
  json : ℕ → Json → Send
  error : ErrorFormat → ℕ → Bytes → Bytes → Bytes → Send
  passed_error : ErrorFormat → ℕ → Bytes → Send
  queue_full : ErrorFormat → Send
  sse_error : Bytes → Bytes → Send
  sse_headers keepalive flush : Send
  bytes : Bytes → Send

module _ (marshal : Json → Marshalled) (trim : Bytes → Bytes)
    (unmarshal : Bytes → Option Fields) where
  unfoldable pub call : Send → Writer → Writer
  call (json status payload) w = write_json marshal status payload w
  call (error format status message kind code) w =
      write_error marshal format status message kind code w
  call (passed_error format status text) w =
      write_passthrough_error marshal trim unmarshal format status text w
  call (queue_full format) w = write_queue_full_error marshal format w
  call (sse_error kind message) w = write_sse_error_event marshal kind message w
  call sse_headers w = write_sse_headers w
  call keepalive w = (flush_vision_handoff_keepalive w).0
  call flush w = safe_flush w
  call (bytes b) w = write_bytes b w

  unfoldable pub send_all : List Send → Writer → Writer
  send_all [] w = w
  send_all (c ∷ calls) w = send_all calls (call c w)

  call-Stable :
      {P : Tracker → Type 0} (s : Stable P) (c : Send) (w : Writer)
      → P w.tracker
      → P (call c w).tracker
  unfolding call write_error write_passthrough_error
  call-Stable s (json status payload) w h = write_json-Stable s marshal status payload w h
  call-Stable s (error format status message kind code) w h = write_json-Stable s marshal _ _ w h
  call-Stable s (passed_error format status text) w h = write_json-Stable s marshal _ _ w h
  call-Stable s (queue_full format) w h = write_queue_full_error-Stable s marshal format w h
  call-Stable s (sse_error kind message) w h =
      write_sse_error_event-Stable s marshal kind message w h
  call-Stable s sse_headers w h = write_sse_headers-Stable s w h
  call-Stable s keepalive w h = flush_vision_handoff_keepalive-Stable s w h
  call-Stable s flush w h = s.on_flush w h
  call-Stable s (bytes b) w h = s.on_write b w h

  pub send_all-Stable :
      {P : Tracker → Type 0} (s : Stable P) (calls : List Send) (w : Writer)
      → P w.tracker
      → P (send_all calls w).tracker
  unfolding send_all
  send_all-Stable s [] w h = h
  send_all-Stable s (c ∷ calls) w h = send_all-Stable s calls (call c w) (call-Stable s c w h)
