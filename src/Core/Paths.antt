-- ===== src/Core/Paths.antt =====
-- packages/protocol-runner-core/src/validation.ts, and the same function in
-- services/protocol-runner-api/src/store.ts: relative paths with single slashes.
use Prim.Native.Char.{Char}
use Prim.Native.String.{String, [], ◌∷◌}
use protocol_runner.Common.{is_char, ◌&&◌, ◌≡◌, refl, if◌then◌else◌, trim}

-- `replace(/\\/g, '/')`.
unfoldable pub slashes_forward : String → String
slashes_forward [] = []
slashes_forward (c ∷ s) = (if is_char b'\\' c then "/" else c) ∷ slashes_forward s

abbrev cons_slash : Char → String → String
cons_slash c [] = c ∷ []
cons_slash c (d ∷ s) = if is_char b'/' c && is_char b'/' d then d ∷ s else c ∷ d ∷ s

-- `replace(/\/+/g, '/')`.
unfoldable pub single_slashes : String → String
single_slashes [] = []
single_slashes (c ∷ s) = cons_slash c (single_slashes s)

-- `normalizePathish` and `normalizeRelativePath`.
unfoldable pub normalize_pathish : String → String
unfolding slashes_forward single_slashes
normalize_pathish s = single_slashes (slashes_forward (trim s))

normalize_pathish_test : normalize_pathish " a\\\\b//c/ " ≡ "a/b/c/"
unfolding normalize_pathish slashes_forward single_slashes trim
normalize_pathish_test = refl
