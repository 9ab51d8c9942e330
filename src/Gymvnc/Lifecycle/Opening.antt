-- ===== src/Gymvnc/Lifecycle/Opening.antt =====
-- The messages with which `connect` opens a session.
use go_vncdriver.Common.Bytes.{u32}
use go_vncdriver.Common.{
  ◌*◌, subst, false, ℕ, zero, suc, ◌≤◌, ◌≡◌, refl, ap, ◌∙◌, true, false, List, [], ◌∷◌, ◌++◌, none,
  some, All, map, length, length-append, append_assoc, arith, replicate,
}
use go_vncdriver.Common.Exec.{ok, lift, ◌>>=◌}
use go_vncdriver.Vncclient.Color.{black}
use go_vncdriver.Vncclient.Encoding.{
  Encoding, type_of, quality_level, compress_level, fine_quality_level, subsample_level,
}
use go_vncdriver.Vncclient.PixelFormat.{format_bytes}
use go_vncdriver.Vncclient.PixelFormat.RoundTrip.{padding}
use go_vncdriver.Vncclient.Client.{ClientConn, set_pixel_format, set_encodings}
use go_vncdriver.Vncclient.Client.Rfc.{ClientMessage}
use go_vncdriver.Vncclient.Client.RoundTrip.{IsCapacity}
use go_vncdriver.Vncclient.Client.Sends.{set_pixel_format-Sends, set_encodings-Sends}
use go_vncdriver.Vncclient.Client.Stream.{
  Transmits, Transmits-then, Carries, Carries-one, Carries-append,
}
use go_vncdriver.Gymvnc.Config.{ℤ, pos, negsuc, VncSessionConfig}
use go_vncdriver.Gymvnc.Screen.{Screen, new_screen}
use go_vncdriver.Gymvnc.Session.{Session, request_update}
use go_vncdriver.Gymvnc.Lifecycle.Numbers.{
  rgb_bytes, rgb_bytes_lem, level_numbers, level_numbers_lem, IsNamed, named_lem,
}
use go_vncdriver.Gymvnc.Session.Asking.{IsRegion, request_of, wanted, subscribed_lem}
use go_vncdriver.Gymvnc.Lifecycle.{
  VncSession, encoding_named, level_encoding, level_encodings, rgb_format, new_session,
}
use go_vncdriver.Gymvnc.Lifecycle.Operations.{set_up, establish, start}

level_encoding-length : (f : ℕ → Encoding) (l : ℤ) → length (level_encoding f l) ≤ 1
unfolding level_encoding
level_encoding-length f (pos n) = omega arith
level_encoding-length f (negsuc zero) = omega arith
level_encoding-length f (negsuc (suc n)) = omega arith

level_encodings-length : (c : VncSessionConfig) → length (level_encodings c) ≤ 4
unfolding level_encodings
level_encodings-length c = omega (
  arith,
  length-append (level_encoding quality_level c.quality_level) (
      level_encoding compress_level c.compress_level
      ++ (level_encoding fine_quality_level c.fine_quality_level
          ++ level_encoding subsample_level c.subsample_level)),
  length-append (level_encoding compress_level c.compress_level) (
      level_encoding fine_quality_level c.fine_quality_level
      ++ level_encoding subsample_level c.subsample_level),
  length-append (level_encoding fine_quality_level c.fine_quality_level)
      (level_encoding subsample_level c.subsample_level),
  level_encoding-length quality_level c.quality_level,
  level_encoding-length compress_level c.compress_level,
  level_encoding-length fine_quality_level c.fine_quality_level,
  level_encoding-length subsample_level c.subsample_level,
)

module _ {I : Type 0} (v : VncSession I) (c : ClientConn I) where
  -- What the server is told: the pixel format, the encodings, and the regions that are wanted.
  abbrev pub opening : ℕ → List ClientMessage
  opening number =
      ClientMessage.pixel_format rgb_bytes
      ∷ ClientMessage.encodings (number ∷ level_numbers v.config)
      ∷ map request_of (wanted v.subscription c.framebuffer_width c.framebuffer_height)

  -- A black screen of the framebuffer's size.
  abbrev pub blank : Screen
  blank = record {
    pixels = replicate (u32 (c.framebuffer_width * c.framebuffer_height)) black;
    width = c.framebuffer_width;
    height = c.framebuffer_height;
  }

  -- The session on the connection behind these bytes.
  abbrev pub opened : Encoding → List ℕ → Session I
  opened enc bs = record {
    conn = record c {
      color_map = replicate 256 black;
      encs = enc ∷ level_encodings v.config;
      output = c.output ++ bs;
    };
    front_screen = blank;
    back_screen = blank;
    back_updated = true;
    deferred_updates = [];
    deferred_updates_max = 60;
    pause_updates = false;
    subscription = v.subscription;
    renderer_active = false;
    renderer = [];
    reported = none;
    resuming = 0;
  }

module _ (capacity : ℕ → ℕ) (cap : IsCapacity capacity) {I : Type 0} where
  -- The connection that has been told its encodings.
  abbrev pub told : List Encoding → ClientConn I → ClientConn I
  told encs c = record c { color_map = replicate 256 black; encs = encs }

  set_up_lem :
      (config : VncSessionConfig) (enc : Encoding) (c : ClientConn I)
      → c.broken ≡ none
      → encoding_named config.encoding ≡ ok enc
      → Transmits (set_up capacity config) c (told (enc ∷ level_encodings config) c) (
          ClientMessage.pixel_format (format_bytes rgb_format ++ padding rgb_format)
          ∷ ClientMessage.encodings (map type_of (enc ∷ level_encodings config))
          ∷ [])
  unfolding set_up
  set_up_lem config enc c h named =
      let (bs, p, reads) = set_pixel_format-Sends capacity cap c h rgb_format in
      Transmits-then (set_pixel_format capacity rgb_format)
        (lift (encoding_named config.encoding) >>= λ e.
          set_encodings capacity (e ∷ level_encodings config))
        c (record c { color_map = replicate 256 black }) (told (enc ∷ level_encodings config) c)
        (ClientMessage.pixel_format (format_bytes rgb_format ++ padding rgb_format) ∷ [])
        (ClientMessage.encodings (map type_of (enc ∷ level_encodings config)) ∷ [])
        (
          bs,
          p,
          Carries-one (ClientMessage.pixel_format (format_bytes rgb_format ++ padding rgb_format))
              bs reads,
        )
        (λ out.
          let d = record c { color_map = replicate 256 black; output = out } in
          let (cs, q, reads') =
            set_encodings-Sends capacity cap d h (enc ∷ level_encodings config)
              (omega (arith, level_encodings-length config)) in
          (
            cs,
            rw named q,
            Carries-one (ClientMessage.encodings (map type_of (enc ∷ level_encodings config))) cs
                reads',
          ))

  module _ (v : VncSession I) (c : ClientConn I) (enc : Encoding) (number : ℕ)
      (works : c.broken ≡ none) (named : IsNamed v.config.encoding enc number)
      (fits : All IsRegion (wanted v.subscription c.framebuffer_width c.framebuffer_height)) where
    known : encoding_named v.config.encoding ≡ ok enc
    known = (named_lem v.config.encoding enc number named).0

    as_numbers :
        ClientMessage.pixel_format (format_bytes rgb_format ++ padding rgb_format)
          ∷ ClientMessage.encodings (map type_of (enc ∷ level_encodings v.config))
          ∷ map request_of (wanted v.subscription c.framebuffer_width c.framebuffer_height)
        ≡ opening v c number
    as_numbers =
        rw
          (
            rgb_bytes_lem,
            (named_lem v.config.encoding enc number named).1,
            level_numbers_lem v.config,
          )
          refl

    establish_lem :
        (bs : List ℕ) × (establish capacity v.config false (new_session v.subscription c)
          ≡ (ok tt, opened v c enc bs))
        × Carries (opening v c number) bs
    unfolding establish request_update new_session new_screen
    establish_lem =
        let (bs, p, told_them) = set_up_lem v.config enc c works known in
        let (cs, q, asked) =
          subscribed_lem capacity cap v.subscription
            (record (told (enc ∷ level_encodings v.config) c) { output = c.output ++ bs }) works
            fits in
        (
          bs ++ cs,
          rw p (rw q (ap (λ l. (ok tt, after l)) (append_assoc c.output bs cs))),
          subst (λ ms. Carries ms (bs ++ cs)) as_numbers
              (Carries-append
                (ClientMessage.pixel_format (format_bytes rgb_format ++ padding rgb_format)
                  ∷ ClientMessage.encodings (map type_of (enc ∷ level_encodings v.config))
                  ∷ [])
                (map request_of (wanted v.subscription c.framebuffer_width c.framebuffer_height)) bs
                cs told_them asked),
        )
      where
        after : List ℕ → Session I
        after l = new_session v.subscription (record c {
          color_map = replicate 256 black;
          encs = enc ∷ level_encodings v.config;
          output = l;
        })

    -- On a connection whose writes do not fail, and where the encoding's name is known, the session
    -- that was not closed in the meantime goes live: a server reads the pixel format, the encoding with
    -- the levels that are set, and the incremental requests for the regions that are wanted, in this
    -- order, and the session keeps the connection and two black screens of the framebuffer's size. The
    -- format is the one with a byte for each of red, green and blue, the encoding is the one named, and a
    -- level other than -1 is sent as the number of its pseudo-encoding.
    pub start_lem :
        v.closed ≡ false
        → (bs : List ℕ) × (start capacity (ok c) v
            ≡ (ok tt, record v { is_connected = true; live = some (opened v c enc bs) }))
          × Carries (opening v c number) bs
    unfolding start
    start_lem going =
        let (bs, e, reads) = establish_lem in
        (
          bs,
          rw (ap (λ b. establish capacity v.config b (new_session v.subscription c)) going ∙ e)
              refl,
          reads,
        )
