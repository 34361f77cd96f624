-- ===== src/Examples/Disks.antt =====
-- The theorems on what is kept on the disk.
use Prim.Native.Char.{code}
use Prim.Native.String.{String}
use laqista.Base.{
  ℕ, zero, suc, ◌+◌, ◌≡◌, refl, ap, ◌∙◌, true, false, not, ◌==◌, List, [], ◌∷◌, ◌++◌, map, Option,
  none, some, ok, arith,
}
use laqista.Base.Int.{pos}
use laqista.Chars.{◌⊕◌, all_chars}
use laqista.Disk.{whole, SavedDeployment, SavedApplication, wasm}
use laqista.Disk.Naming.{Hex, read, ends_with}
use laqista.Files.Saving.{AppDir, save_in}
use laqista.Types.{Deployment, DeploymentInfo}
use laqista.Wasm.Runner.{Codec}
use laqista.Files.Archive.{Access, Dir, write_tgz}
use laqista.Files.Targets.{read_binary}
use laqista.Files.Stored.{readable, listed, read_binary-write_tgz}
use laqista.Examples.Wire.{put_text, text, text-put_text}
use laqista.Examples.Sample.{tallies, tally, face}

-- Numbers as tallies with a comma behind each.
abbrev print_all : List ℕ → String
print_all [] = ""
print_all (n ∷ ns) = tally n ⊕ "," ⊕ print_all ns

-- One number is read at a time; the first argument has been counted already.
unfoldable read_numbers : ℕ → String → List ℕ
read_numbers k String.[] = []
read_numbers k (String.◌∷◌ c s) = elim (code c == b',') [
  | true ↦ k ∷ read_numbers 0 s
  | false ↦ read_numbers (suc k) s
]

read_tally :
    (k n : ℕ) (s : String) → read_numbers k (tally n ⊕ "," ⊕ s) ≡ (n + k) ∷ read_numbers 0 s
unfolding read_numbers
read_tally k zero s = ap (λ (m : ℕ). m ∷ read_numbers 0 s) (omega arith)
read_tally k (suc n) s = read_tally (suc k) n s ∙ ap (λ (m : ℕ). m ∷ read_numbers 0 s) (omega arith)

add_zero : (n : ℕ) → n + 0 ≡ n
add_zero n = omega arith

read_numbers-print_all : (ns : List ℕ) → read_numbers 0 (print_all ns) ≡ ns
unfolding read_numbers
read_numbers-print_all [] = refl
read_numbers-print_all (n ∷ ns) =
    read_tally 0 n (print_all ns) ∙ cc (add_zero n, read_numbers-print_all ns)

tally-no_dash :
    (n : ℕ) (s : String)
    → all_chars (λ c. not (c == b'-')) s ≡ true
    → all_chars (λ c. not (c == b'-')) (tally n ⊕ "," ⊕ s) ≡ true
unfolding all_chars
tally-no_dash zero s h = h
tally-no_dash (suc n) s h = tally-no_dash n s h

print_all-no_dash : (ns : List ℕ) → all_chars (λ c. not (c == b'-')) (print_all ns) ≡ true
unfolding all_chars
print_all-no_dash [] = refl
print_all-no_dash (n ∷ ns) = tally-no_dash n (print_all ns) (print_all-no_dash ns)

instance abbrev tallied : Hex
tallied = record {
  encode = print_all;
  from_hex = λ s. some (read_numbers 0 s);
  single = λ t. true;
  from_hex-encode = λ hash h. ap some (read_numbers-print_all hash);
  encode-no_dash = λ hash h. print_all-no_dash hash;
}

abbrev bytes_32 : List ℕ
bytes_32 =
    let eight : List ℕ = 1 ∷ 2 ∷ 3 ∷ 4 ∷ 5 ∷ 6 ∷ 7 ∷ 8 ∷ [] in eight ++ eight ++ eight ++ eight

abbrev saved : SavedDeployment
saved = record { timestamp = whole (pos 1700000000); hash = bytes_32 }

abbrev face_saved : SavedApplication
face_saved = record { info = face; deployments = saved ∷ [] }

abbrev hello_saved : SavedApplication
hello_saved = record {
  info = record { id = 9; name = "hello"; source = "http://source" };
  deployments = record saved { timestamp = record { seconds = pos 1700000000; nanos = 5 } } ∷ [];
}

abbrev writable : Access
writable = record { read = ok tt; create = ok tt; write = λ name. ok tt }

read_binary-write_tgz_example :
    (d : Dir) × (write_tgz writable
        (ok (map readable (("model.onnx", 1 ∷ []) ∷ ("app.wasm", 2 ∷ []) ∷ [])))
        none
      ≡ (ok tt, some d))
    × (read_binary wasm (ok (map listed d)) ≡ ok (2 ∷ []))
unfolding ends_with
read_binary-write_tgz_example =
    read_binary-write_tgz writable wasm none (("model.onnx", 1 ∷ []) ∷ []) [] "app.wasm" (2 ∷ [])
      (record { reads = refl; creates = refl; writes = λ name. refl }) tt (refl, tt) refl tt

abbrev messages : Codec Deployment
messages = record {
  encode = λ d. put_text d.id (put_text d.source (put_text d.name []));
  decode = λ l.
      let (id, rest) = text l in
      let (source, rest) = text rest in
      ok (record { id = id; source = source; name = (text rest).0 });
  decode-encode = λ d.
      rw
        (
          text-put_text d.id (put_text d.source (put_text d.name [])),
          text-put_text d.source (put_text d.name []),
          text-put_text d.name [],
        )
        refl;
}

-- A second application of the same name, of which nothing but the file of the first one is kept.
abbrev second_face : DeploymentInfo
second_face = record face { id = 8 }

abbrev after_first : Option AppDir
after_first = (save_in messages writable (whole (pos 1700000000)) bytes_32 face (ok []) none).1

abbrev later : SavedDeployment
later = record saved { timestamp = record { seconds = pos 1700000009; nanos = 5 } }

abbrev after_second : Option AppDir
after_second =
    (save_in messages writable later.timestamp bytes_32 second_face (ok []) after_first).1
