-- ===== src/Data/Stream/Recorded.antt =====
-- What is recorded of a stream is what was passed on of it: aimos/data/streaming.py.
use mathlib.Core.List.{append_assoc, append-nil}
use Prim.Native.String.{◌++◌ as concat}
use aimos.Prelude.{
  String, ◌≡◌, refl, sym, ap, ◌∙◌, inl, inr, ◌⊎◌, Bool, true, false, Option, none, some, List, [],
  ◌∷◌, ◌++◌, map, or_else, ◌>>=◌, str_eq, eq_iff, Option-cases, Bool-cases, subst, if◌then◌else◌,
}
use aimos.Prelude.Int.{ℤ}
use aimos.Prelude.Dict.{Dict, lookup, insert, lookup-insert}
use aimos.Prelude.Floats.{Floats}
use aimos.Data.Stream.{StreamEvent, Conversions, read_message}
use aimos.Data.Stream.Feed.{handle}
use aimos.Data.Stream.Replay.{
  to_dict, from_dict, events, LineCodec, StreamRecorder, Source, line_of, file_of, write, pass_on,
  handle_message, handle_messages,
}

-- The lines of a file, replayed: read as JSON, given by `RecordedStreamSource`, and taken by `from_dict`.
abbrev pub replayed :
    {F : Type 0} → LineCodec F → (String → Option ℤ) → List String → List (Option (StreamEvent F))
replayed codec from_iso lines =
    map (λ o. o >>= from_dict from_iso) (events (record { recorded = map codec.loads lines }))

abbrev pub lines_of : String → StreamRecorder → List String
lines_of path r = or_else (lookup path r.files) []

map-append : {A B : Type 0} (f : A → B) (xs ys : List A) → map f (xs ++ ys) ≡ map f xs ++ map f ys
map-append f [] ys = refl
map-append f (x ∷ xs) ys = ap (λ zs. f x ∷ zs) (map-append f xs ys)

module _ {F : Type 0} (codec : LineCodec F) (iso : ℤ → String) (from_iso : String → Option ℤ) where
  replayed-append :
      (ls ms : List String)
      → replayed codec from_iso (ls ++ ms)
        ≡ replayed codec from_iso ls ++ replayed codec from_iso ms
  unfolding events
  replayed-append ls ms =
      ap (map (λ o. o >>= from_dict from_iso)) (map-append codec.loads ls ms)
      ∙ map-append (λ o. o >>= from_dict from_iso) (map codec.loads ls) (map codec.loads ms)

  -- What the code relies on, of an event: its line of JSON and its time stamp can be read back.
  pub record Readable (e : StreamEvent F) : Type 0 where
    pub line : codec.loads (line_of iso codec e) ≡ some (to_dict iso e)
    pub stamp : from_iso (iso e.timestamp) ≡ some e.timestamp

  abbrev pub AllReadable : List (StreamEvent F) → Type 0
  AllReadable [] = Unit
  AllReadable (e ∷ es) = Readable e × AllReadable es

  from_dict-to_dict :
      (e : StreamEvent F)
      → from_iso (iso e.timestamp) ≡ some e.timestamp
      → from_dict from_iso (to_dict iso e) ≡ some e
  unfolding from_dict to_dict lookup
  from_dict-to_dict e h = rw (h) refl

  replayed-map :
      (es : List (StreamEvent F))
      → AllReadable es
      → replayed codec from_iso (map (line_of iso codec) es) ≡ map some es
  unfolding events
  replayed-map [] h = refl
  replayed-map (e ∷ es) (h, hs) =
      rw (h.line, from_dict-to_dict e h.stamp) (ap (λ os. some e ∷ os) (replayed-map es hs))

  -- The lines that some events add to a file, if they go to it.
  abbrev pub added : String → List (StreamEvent F) → String → List String
  added path es q = if str_eq path q then map (line_of iso codec) es else []

  lines-insert :
      (path q line : String) (files : Dict (List String))
      → or_else (lookup q (insert path (or_else (lookup path files) [] ++ line ∷ []) files)) []
        ≡ or_else (lookup q files) [] ++ (if str_eq path q then line ∷ [] else [])
  lines-insert path q line files = elim (Bool-cases (str_eq path q)) [
    | inl y ↦
        rw (lookup-insert path q (or_else (lookup path files) [] ++ line ∷ []) files, y)
          (ap (λ p. or_else (lookup p files) [] ++ line ∷ []) ((eq_iff path q).0 y))
    | inr n ↦
        rw (lookup-insert path q (or_else (lookup path files) [] ++ line ∷ []) files, n)
          (sym (append-nil (or_else (lookup q files) [])))
  ]

  write-lines :
      (day q : String) (e : StreamEvent F) (r : StreamRecorder)
      → lines_of q (write iso codec day e r)
        ≡ lines_of q r ++ added (file_of iso codec day r) (e ∷ []) q
  unfolding write
  write-lines day q e r = lines-insert (file_of iso codec day r) q (line_of iso codec e) r.files

  added-cons :
      (path q : String) (e : StreamEvent F) (es : List (StreamEvent F))
      → added path (e ∷ []) q ++ added path es q ≡ added path (e ∷ es) q
  added-cons path q e es = elim (Bool-cases (str_eq path q)) [
    | inl y ↦ rw (y) refl
    | inr n ↦ rw (n) refl
  ]

  -- From a queue and a recorder, the source has come to pass on more events, all of whose lines are in
  -- one file, behind those that were there.
  record Recorded (queue : List (StreamEvent F)) (r : StreamRecorder) (s : Source F) : Type 0 where
    path : String
    passed : List (StreamEvent F)
    recorder : StreamRecorder
    opened : or_else r.opened path ≡ path
    attached : s.recorder ≡ some recorder
    queued : s.queue ≡ queue ++ passed
    lines : (q : String) → lines_of q recorder ≡ lines_of q r ++ added path passed q
    readable : AllReadable passed

  or_else-twice : (o : Option String) (d : String) → or_else o (or_else o d) ≡ or_else o d
  or_else-twice none d = refl
  or_else-twice (some x) d = refl

  added_nothing : (path q : String) → added path [] q ≡ []
  added_nothing path q = elim (Bool-cases (str_eq path q)) [
    | inl y ↦ rw (y) refl
    | inr n ↦ rw (n) refl
  ]

  none-Recorded : (s : Source F) (r : StreamRecorder) → s.recorder ≡ some r → Recorded s.queue r s
  none-Recorded s r h = record {
    path = or_else r.opened "";
    passed = [];
    recorder = r;
    opened = or_else-twice r.opened "";
    attached = h;
    queued = sym (append-nil s.queue);
    lines = λ q. sym (
        ap (λ ls. lines_of q r ++ ls) (added_nothing (or_else r.opened "") q)
        ∙ append-nil (lines_of q r));
    readable = tt;
  }

  write-Recorded :
      (day : String) (e : StreamEvent F) (queue : List (StreamEvent F)) (r : StreamRecorder)
      (s : Source F)
      → Readable e
      → Recorded (queue ++ e ∷ []) (write iso codec day e r) s
      → Recorded queue r s
  unfolding write
  write-Recorded day e queue r s k h = record {
    path = file_of iso codec day r;
    passed = e ∷ h.passed;
    recorder = h.recorder;
    opened = or_else-twice r.opened (concat day ".jsonl");
    attached = h.attached;
    queued = h.queued ∙ append_assoc queue (e ∷ []) h.passed;
    lines = λ q.
        h.lines q
        ∙ ap (λ p. lines_of q (write iso codec day e r) ++ added p h.passed q) (sym h.opened)
        ∙ ap (λ ls. ls ++ added (file_of iso codec day r) h.passed q) (write-lines day q e r)
        ∙ append_assoc (lines_of q r) (added (file_of iso codec day r) (e ∷ []) q)
            (added (file_of iso codec day r) h.passed q)
        ∙ ap (λ ls. lines_of q r ++ ls) (added-cons (file_of iso codec day r) q e h.passed);
    readable = (k, h.readable);
  }

  -- A source that passes on messages with a recorder attached, and how its files then replay
  pub record Replayed (r : StreamRecorder) (s s' : Source F) : Type 0 where
    pub path : String
    pub passed : List (StreamEvent F)
    pub recorder : StreamRecorder
    pub opened : or_else r.opened path ≡ path
    pub attached : s'.recorder ≡ some recorder
    pub queued : s'.queue ≡ s.queue ++ passed
    pub replays :
        (q : String)
        → replayed codec from_iso (lines_of q recorder)
          ≡ replayed codec from_iso (lines_of q r)
            ++ (if str_eq path q then map some passed else [])

  module _ ⦃fl : Floats F⦄ (conv : Conversions F) (venue : String) where
    -- What a message holds is an event that can be read back, if it is one.
    abbrev pub ReadableMessage : Option (Option (StreamEvent F)) → Type 0
    ReadableMessage none = Unit
    ReadableMessage (some none) = Unit
    ReadableMessage (some (some e)) = Readable e

    abbrev pub AllReadableMessages : List (ℤ × String × String) → Type 0
    AllReadableMessages [] = Unit
    AllReadableMessages ((now, day, raw) ∷ ms) =
        ReadableMessage (read_message conv now venue raw) × AllReadableMessages ms

    -- A message changes neither the recorder nor the queue, or its event goes to both.
    abbrev Passed : String → StreamRecorder → Source F → Source F → Type 0
    Passed day r s s' =
        (s'.recorder ≡ some r × s'.queue ≡ s.queue)
        ⊎ ((e : StreamEvent F) × Readable e
            × s'.recorder ≡ some (write iso codec day e r)
            × s'.queue ≡ s.queue ++ e ∷ [])

    pass_on-Passed :
        (day : String) (e : StreamEvent F) (r : StreamRecorder) (s : Source F)
        → s.recorder ≡ some r
        → Readable e
        → Passed day r s (pass_on iso codec conv venue day e s).1
    unfolding pass_on
    pass_on-Passed day e r s h k = elim (Option-cases s.feed) [
      | inl n ↦ rw (pass_on, n, h) (inr (e, k, refl, refl))
      | inr (f, y) ↦ elim (Bool-cases (handle conv e f).0) [
        | inl t ↦ rw (pass_on, y, t) (inl (h, refl))
        | inr u ↦ rw (pass_on, y, u, h) (inr (e, k, refl, refl))
      ]
    ]

    message-Passed :
        (day : String) (r : StreamRecorder) (s : Source F) (m : Option (Option (StreamEvent F)))
        → s.recorder ≡ some r
        → ReadableMessage m
        → Passed day r s
            (elim m as (λ _. Bool × Source F) [
              | none ↦ (true, s)
              | some none ↦ (false, s)
              | some (some e) ↦ pass_on iso codec conv venue day e s
            ]).1
    message-Passed day r s none h k = inl (h, refl)
    message-Passed day r s (some none) h k = inl (h, refl)
    message-Passed day r s (some (some e)) h k = pass_on-Passed day e r s h k

    handle_message-Passed :
        (now : ℤ) (day raw : String) (r : StreamRecorder) (s : Source F)
        → s.recorder ≡ some r
        → ReadableMessage (read_message conv now venue raw)
        → Passed day r s (handle_message iso codec conv venue now day raw s).1
    unfolding handle_message
    handle_message-Passed now day raw r s h k =
        message-Passed day r s (read_message conv now venue raw) h k

    handle_messages-Recorded :
        (ms : List (ℤ × String × String)) (r : StreamRecorder) (s : Source F)
        → s.recorder ≡ some r
        → AllReadableMessages ms
        → Recorded s.queue r (handle_messages iso codec conv venue ms s)
    unfolding handle_messages
    handle_messages-Recorded [] r s h k = none-Recorded s r h
    handle_messages-Recorded ((now, day, raw) ∷ ms) r s h (k, ks) =
        let s' = (handle_message iso codec conv venue now day raw s).1 in
        elim (handle_message-Passed now day raw r s h k) [
          | inl (h', q') ↦
              subst (λ q. Recorded q r (handle_messages iso codec conv venue ms s')) q'
                (handle_messages-Recorded ms r s' h' ks)
          | inr (e, k', h', q') ↦
              write-Recorded day e s.queue r (handle_messages iso codec conv venue ms s') k' (
                subst
                  (λ q.
                    Recorded q (write iso codec day e r)
                      (handle_messages iso codec conv venue ms s'))
                  q' (handle_messages-Recorded ms (write iso codec day e r) s' h' ks))
        ]

    replayed-added :
        (path q : String) (es : List (StreamEvent F))
        → AllReadable es
        → replayed codec from_iso (added path es q) ≡ (if str_eq path q then map some es else [])
    unfolding events
    replayed-added path q es h = elim (Bool-cases (str_eq path q)) [
      | inl y ↦ rw (y) (replayed-map es h)
      | inr n ↦ rw (n) refl
    ]

    -- Recording a stream and replaying it. A source with any recorder, new or open, and with any files
    -- takes any messages whose events can be read back from their line. Then the queue has got some
    -- events, in order, and `from_dict` of what `RecordedStreamSource` gives of the lines of a file is
    -- what it was before, and then, in one file only, exactly those events. That file is the one that was
    -- open, if one was.
    pub handle_messages-Replayed :
        (ms : List (ℤ × String × String)) (r : StreamRecorder) (s : Source F)
        → s.recorder ≡ some r
        → AllReadableMessages ms
        → Replayed r s (handle_messages iso codec conv venue ms s)
    handle_messages-Replayed ms r s h k =
        let c = handle_messages-Recorded ms r s h k in
        record {
          path = c.path;
          passed = c.passed;
          recorder = c.recorder;
          opened = c.opened;
          attached = c.attached;
          queued = c.queued;
          replays = λ q.
              ap (replayed codec from_iso) (c.lines q)
              ∙ replayed-append (lines_of q r) (added c.path c.passed q)
              ∙ ap (λ os. replayed codec from_iso (lines_of q r) ++ os)
                  (replayed-added c.path q c.passed c.readable);
        }
