-- ===== src/Packets/Fits.antt =====
-- When a text fits the packet that it is put into.
use shell_chat_app_multi_ser.Base.{
  ◌+◌, ◌≤◌, ◌<◌, ◌≡◌, refl, ◌++◌, Text, ok, err, buffer_overflow, length, length-append, arith,
  strcpy-ok, strcpy_overflow,
}
use shell_chat_app_multi_ser.Duckchat.{username_max, channel_max, say_max}
use shell_chat_app_multi_ser.Packets.{
  text_error, text_say, serv_say, serv_join, serv_leave, fill_error, fill_who_error, cannot_find,
  channel_quote, not_exist, s2s_fill_say, s2s_fill_join, s2s_fill_leave, fill_text_say,
}

pub fill_error-ok :
    (name : Text) → length name < 36 → fill_error name ≡ ok (text_error (cannot_find ++ name))
unfolding fill_error
fill_error-ok name h =
    rw (strcpy-ok say_max (cannot_find ++ name) (omega (arith, length-append cannot_find name)))

pub fill_error_overflow : (name : Text) → 36 ≤ length name → fill_error name ≡ err buffer_overflow
unfolding fill_error
fill_error_overflow name h =
    rw (strcpy_overflow 64 (cannot_find ++ name) (omega (arith, length-append cannot_find name)))

-- For every name that fits a channel field of 32 bytes, the two texts that report an unknown
-- channel fit their 64 bytes, and the report of REQ_WHO has as many bytes as the name and 32 more.
pub channel_errors_fit :
    (name : Text)
    → length name < channel_max
    → (fill_error name ≡ ok (text_error (cannot_find ++ name)))
      × (fill_who_error name ≡ ok (text_error ((channel_quote ++ name) ++ not_exist)))
      × (length ((channel_quote ++ name) ++ not_exist) ≡ length name + channel_max)
unfolding fill_who_error
channel_errors_fit name h =
    let inner : length (channel_quote ++ name) ≡ 16 + length name =
      length-append channel_quote name in
    let outer : length ((channel_quote ++ name) ++ not_exist) ≡ length name + channel_max =
      omega (arith, length-append (channel_quote ++ name) not_exist) in
    (
      fill_error-ok name (omega arith),
      rw
          (
            strcpy-ok say_max channel_quote (omega arith),
            strcpy-ok say_max (channel_quote ++ name) (omega arith),
            strcpy-ok say_max ((channel_quote ++ name) ++ not_exist) (omega arith),
          )
          refl,
      outer,
    )

pub s2s_fill_join-ok :
    (name : Text) → length name < channel_max → s2s_fill_join name ≡ ok (serv_join name)
unfolding s2s_fill_join
s2s_fill_join-ok name h = rw (strcpy-ok channel_max name h)

pub s2s_fill_leave-ok :
    (name : Text) → length name < channel_max → s2s_fill_leave name ≡ ok (serv_leave name)
unfolding s2s_fill_leave
s2s_fill_leave-ok name h = rw (strcpy-ok channel_max name h)

module _ (c u t : Text) (hc : length c < channel_max) (hu : length u < username_max)
    (ht : length t < say_max) where
  pub s2s_fill_say-ok : s2s_fill_say c u t ≡ ok (serv_say 0 u c t)
  unfolding s2s_fill_say
  s2s_fill_say-ok =
      rw (strcpy-ok channel_max c hc, strcpy-ok username_max u hu, strcpy-ok say_max t ht)

  pub fill_text_say-ok : fill_text_say c u t ≡ ok (text_say c u t)
  unfolding fill_text_say
  fill_text_say-ok =
      rw (strcpy-ok channel_max c hc, strcpy-ok username_max u hu, strcpy-ok say_max t ht)
