-- ===== src/Random.antt =====
-- `gen_rand` of helper_functions.c. What `rand` returns after `srand` of a seed is an argument, and so is
-- what comes of `/dev/urandom`: no file, a file that gives no four bytes, or the seed that it gives.
use shell_chat_app_multi_ser.Base.{ℕ, ◌<◌, ◌≡◌, Result, ok, err, null_deref, uninit_read, arith}

pub data Urandom : Type 0 where
  no_file no_bytes : Urandom
  seed : ℕ → Urandom

-- `fread` reads through what `fopen` returned, and `srand` takes the seed as it is.
unfoldable pub gen_rand : (ℕ → ℕ) → Urandom → Result ℕ
gen_rand rand no_file = err null_deref
gen_rand rand no_bytes = err uninit_read
gen_rand rand (seed n) = ok (rand n)

-- `RAND_MAX` of glibc is 2147483647; an id fits the structure of a say between servers.
gen_rand_fits :
    (rand : ℕ → ℕ) (u : Urandom) (id : ℕ)
    → ((n : ℕ) → rand n < 2147483648)
    → gen_rand rand u ≡ ok id
    → id < 18446744073709551616
unfolding gen_rand
gen_rand_fits rand no_file id h e = cc
gen_rand_fits rand no_bytes id h e = cc
gen_rand_fits rand (seed n) id h e = let same : rand n ≡ id = cc in omega (arith, h n, same)
