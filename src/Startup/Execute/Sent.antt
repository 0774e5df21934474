-- ===== src/Startup/Execute/Sent.antt =====
-- The frames that `awaitAck` of src/ublox/Startup.cpp sends.
use gnsshat.Base.{
  ℕ, ◌≡◌, ◌≢◌, refl, sym, ◌∙◌, Bool, true, false, List, [], ◌∷◌, ◌++◌, some, get_elem?, All,
  All-append, if◌then◌else◌, Bytes, Result, ok, err, ◌>>=◌,
}
use mathlib.Core.Path.{subst}
use gnsshat.Dispatch.{UbxMsg}
use gnsshat.Dispatch.Parse.{parse_buffer}
use gnsshat.Messages.Framing.{build_frame, body, framed, build_frame_lem}
use gnsshat.Startup.Configure.{Transfer, World, with_receiver, joined, await_loop, await_ack}

-- A frame that is not one of UBX-CFG-CFG: its identifier, behind the class, is another one.
abbrev pub IsUnsaved : Bytes → Type 0
IsUnsaved frame = get_elem? frame 3 ≢ some 0x09

abbrev pub AreUnsaved : World → Type 0
AreUnsaved world = All IsUnsaved world.sent

-- The world that a computation ends with.
abbrev pub Ends : Result (Bool × World) → Type 0
Ends r = (b : Bool) (after : World) → r ≡ ok (b, after) → AreUnsaved after

abbrev pub EndsIn : Result World → Type 0
EndsIn r = (after : World) → r ≡ ok after → AreUnsaved after

pub Ends-ok : (b : Bool) (world : World) → AreUnsaved world → Ends (ok (b, world))
Ends-ok b world h c after e = let there : world ≡ after = cc in subst AreUnsaved there h

pub EndsIn-ok : (world : World) → AreUnsaved world → EndsIn (ok world)
EndsIn-ok world h after e = let there : world ≡ after = cc in subst AreUnsaved there h

pub Ends-bind {ℓ} :
    {A : Type ℓ} (m : Result A) (f : A → Result (Bool × World))
    → ((a : A) → m ≡ ok a → Ends (f a))
    → Ends (m >>= f)
Ends-bind (ok a) f h = h a refl
Ends-bind (err e) f h = λ b after same. absurd cc

pub EndsIn-bind {ℓ} :
    {A : Type ℓ} (m : Result A) (f : A → Result World)
    → ((a : A) → m ≡ ok a → EndsIn (f a))
    → EndsIn (m >>= f)
EndsIn-bind (ok a) f h = h a refl
EndsIn-bind (err e) f h = λ after same. absurd cc

pub Ends-then :
    (m : Result (Bool × World)) (f : Bool × World → Result (Bool × World))
    → Ends m
    → ((b : Bool) (world : World) → AreUnsaved world → Ends (f (b, world)))
    → Ends (m >>= f)
Ends-then (ok (b, world)) f h k = k b world (h b world refl)
Ends-then (err e) f h k = λ b after same. absurd cc

pub Ends-after :
    (m : Result World) (f : World → Result (Bool × World))
    → EndsIn m
    → ((world : World) → AreUnsaved world → Ends (f world))
    → Ends (m >>= f)
Ends-after (ok world) f h k = k world (h world refl)
Ends-after (err e) f h k = λ b after same. absurd cc

pub Ends-if : (b : Bool) (x y : Result (Bool × World)) → Ends x → Ends y → Ends (if b then x else y)
Ends-if true x y h k = h
Ends-if false x y h k = k

pub EndsIn-if : (b : Bool) (x y : Result World) → EndsIn x → EndsIn y → EndsIn (if b then x else y)
EndsIn-if true x y h k = h
EndsIn-if false x y h k = k

pub built-IsUnsaved :
    (class_id msg_id : ℕ) (payload frame : Bytes)
    → msg_id ≢ 0x09
    → build_frame (0xB5 ∷ 0x62 ∷ body class_id msg_id payload) ≡ ok frame
    → IsUnsaved frame
built-IsUnsaved class_id msg_id payload frame other e =
    let same : framed class_id msg_id payload ≡ frame =
      built (sym (build_frame_lem class_id msg_id payload) ∙ e) in
    subst IsUnsaved same (λ f. other (first f))
  where
    built : {x y : Bytes} → ok x ≡ ok y → x ≡ y
    built f = cc

    first : {x y : ℕ} → some x ≡ some y → x ≡ y
    first f = cc

pub one_more :
    (frames : List Bytes) (frame : Bytes)
    → All IsUnsaved frames
    → IsUnsaved frame
    → All IsUnsaved (frames ++ frame ∷ [])
one_more frames frame h k = All-append IsUnsaved frames (frame ∷ []) h (k, tt)

await_loop-Ends :
    (msg : UbxMsg) (world : World) (unfinished : Bytes) (reads : List Bytes)
    → AreUnsaved world
    → Ends (await_loop msg world unfinished reads)
unfolding await_loop
await_loop-Ends msg world unfinished [] h = Ends-ok false world h
await_loop-Ends msg world unfinished ([] ∷ reads) h = await_loop-Ends msg world unfinished reads h
await_loop-Ends msg world unfinished ((b ∷ bytes) ∷ reads) h =
    Ends-bind (joined unfinished (b ∷ bytes)) _ (λ buffer _.
      Ends-bind (parse_buffer world.receiver buffer) _ (λ (receiver, left) _.
        Ends-if _ _ _ (Ends-ok true _ h)
          (await_loop-Ends msg (with_receiver world receiver) left reads h)))

pub await_ack-Ends :
    (payload : Bytes) (msg : UbxMsg) (transfer : Transfer) (world : World)
    → IsUnsaved payload
    → AreUnsaved world
    → Ends (await_ack payload msg transfer world)
unfolding await_ack
await_ack-Ends payload msg transfer world k h =
    let sent = one_more world.sent payload h k in
    Ends-bind (parse_buffer _ transfer.received) _ (λ (receiver, left) _.
      Ends-if _ _ _ (Ends-ok true _ sent)
        (await_loop-Ends msg _ left (transfer.polled ∷ transfer.polled_later) sent))
