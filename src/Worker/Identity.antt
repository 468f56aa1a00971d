-- ===== src/Worker/Identity.antt =====
-- pkg/bullmq/utils.go and generateWorkerID of worker.go: how a worker gets its id. The random
-- bytes, the host name and the process id are arguments.
use bullmq_go.Prelude.{
  ℕ, ◌/◌, Bytes, AllBytes, codes, ◌++◌, ◌≡◌, ◌≢◌, refl, sym, ◌∙◌, Option, none, some,
}
use bullmq_go.Prelude.Int.{ℤ}
use bullmq_go.Prelude.Hex.{encode_to_string, encode_to_string-injective}
use mathlib.Core.List.{append_cancel_left}

-- What crypto/rand gives for so many bytes, or its error.
abbrev pub Rand : Type 0
Rand = ℕ → Option Bytes

unfoldable pub generate_random_hex : Rand → ℕ → Bytes
unfolding encode_to_string
generate_random_hex read n = elim (read (n / 2)) [
  | none ↦ codes "000000"
  | some bytes ↦ encode_to_string bytes
]

-- os.Hostname gives a name or an error; `format_int` is fmt's %d.
unfoldable pub generate_worker_id : (ℤ → Bytes) → Option Bytes → ℤ → Rand → Bytes
unfolding generate_random_hex
generate_worker_id format_int hostname pid read =
    let host : Bytes = elim hostname [ none ↦ codes "unknown" | some name ↦ name ] in
    host ++ (codes "-" ++ (format_int pid ++ (codes "-" ++ generate_random_hex read 6)))

random_hex_six :
    (read : Rand) (bytes : Bytes)
    → read 3 ≡ some bytes
    → generate_random_hex read 6 ≡ encode_to_string bytes
unfolding generate_random_hex
random_hex_six read bytes e = rw (generate_random_hex, e) refl

-- Two workers of one process have different ids where crypto/rand gave them different bytes.
pub generate_worker_id-ne :
    (format_int : ℤ → Bytes) (hostname : Option Bytes) (pid : ℤ) (read read' : Rand) (xs ys : Bytes)
    → read 3 ≡ some xs
    → read' 3 ≡ some ys
    → AllBytes xs
    → AllBytes ys
    → xs ≢ ys
    → generate_worker_id format_int hostname pid read
      ≢ generate_worker_id format_int hostname pid read'
unfolding generate_worker_id
generate_worker_id-ne format_int hostname pid read read' xs ys e e' p q differ same =
    let host : Bytes = elim hostname [ none ↦ codes "unknown" | some name ↦ name ] in
    differ (
      encode_to_string-injective xs ys p q (
        sym (random_hex_six read xs e)
        ∙ append_cancel_left (codes "-") _ _ (
            append_cancel_left (format_int pid) _ _
              (append_cancel_left (codes "-") _ _ (append_cancel_left host _ _ same)))
        ∙ random_hex_six read' ys e'))
