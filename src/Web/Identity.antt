-- ===== src/Web/Identity.antt =====
-- backend/web/utils_id.go: the id of a user, from the request's address and agent, and its mask.
pub mod Masking
use etcdlabs.Prelude.{
  ℕ, ◌-◌, not, ◌&&◌, ◌||◌, List, [], ◌∷◌, ◌++◌, Exec, ret, panics, ◌>>=◌, Text, codes, contains,
  length, set, take, drop, ltb, leb, ◌==◌, if◌then◌else◌,
}

-- Functions of the standard library that rest on Unicode tables or on a hash: `strings.TrimSpace`,
-- `strings.ToLower`, `sha512.Sum512` and `base64.StdEncoding.EncodeToString`.
pub record Library : Type 0 where
  pub trim_space : Text → Text
  pub to_lower : Text → Text
  pub sum512 : Text → Text
  pub encode_base64 : Text → Text

-- `hashSha512`
abbrev pub hash_sha512 : Library → Text → Text
hash_sha512 lib s = lib.encode_base64 (lib.sum512 s)

-- `http.Request`: `Header.Get`, `RemoteAddr`, and the header "User-Agent".
pub record Request : Type 0 where
  pub header : Text → Text
  pub remote_addr : Text
  pub user_agent : Text

-- `s[lo:hi]`
unfoldable pub slice : Text → ℕ → ℕ → Exec Text
slice s lo hi = if leb lo hi && leb hi (length s) then ret (take (hi - lo) (drop lo s)) else panics

-- `strings.Replace(s, string(b), "", -1)`
unfoldable pub without : ℕ → Text → Text
without b [] = []
without b (c ∷ s) = if c == b then without b s else c ∷ without b s

-- `strings.Split(s, string(b))[0]`
unfoldable pub before : ℕ → Text → Text
before b [] = []
before b (c ∷ s) = if c == b then [] else c ∷ before b s

first_header : (Text → Text) → List Text → Text
first_header get [] = []
first_header get (k ∷ ks) =
    let rest = first_header get ks in elim (get k) [ [] ↦ rest | c ∷ v ↦ c ∷ v ]

unfoldable pub get_real_ip : Request → Text
unfolding first_header
get_real_ip req =
    first_header req.header
      (codes "X-Forwarded-For" ∷ codes "x-forwarded-for" ∷ codes "X-FORWARDED-FOR" ∷ [])

-- The operating system's part of `classifyUA`.
unfoldable pub os_part : Text → Exec Text
os_part raw =
    if contains raw (codes "linux")
    then ret (codes "linux")
    else if contains raw (codes "macintosh") || contains raw (codes "macos")
    then ret (codes "mac")
    else if contains raw (codes "windows")
    then ret (codes "window")
    else if contains raw (codes "iphone")
    then ret (codes "iphone")
    else if contains raw (codes "android")
    then ret (codes "android")
    else if ltb 7 (length raw)
    then slice raw 2 7
    else ret raw

-- The browser's part; no case leaves the text as it is.
unfoldable pub browser_part : Text → Exec Text
browser_part raw =
    if contains raw (codes "firefox/") && not (contains raw (codes "seammonkey/"))
    then ret (codes "firefox")
    else if contains raw (codes ";msie")
    then ret (codes "ie")
    else if contains raw (codes "safari/")
        && (not (contains raw (codes "chrome/")) && not (contains raw (codes "chromium/")))
    then ret (codes "safari")
    else if contains raw (codes "chrome/") || contains raw (codes "chromium/")
    then ret (codes "chrome")
    else if ltb 15 (length raw)
    then slice raw 9 14
    else ret []

unfoldable pub classify_ua : Library → Text → Exec Text
classify_ua lib ua = do
  let raw = without b' ' (lib.to_lower ua)
  os ← os_part raw
  browser ← browser_part raw
  ret (os ++ browser)

-- The address that an id begins with.
unfoldable pub user_ip : Library → Request → Text
unfolding get_real_ip before without
user_ip lib req =
    let real = get_real_ip req in
    let ip : Text = elim real [ [] ↦ before b':' req.remote_addr | c ∷ v ↦ c ∷ v ] in
    lib.trim_space (without b'.' ip)

unfoldable pub generate_user_id : Library → Request → Exec Text
generate_user_id lib req = do
  class ← classify_ua lib req.user_agent
  digest ← slice (hash_sha512 lib (user_ip lib req ++ req.user_agent)) 0 15
  ret (user_ip lib req ++ (class ++ digest))

-- `bts[i] = 'x'`
unfoldable pub blot : ℕ → Text → Exec Text
blot i s = if ltb i (length s) then ret (set s i b'x') else panics

-- `if len(bs) > 23 { bs = bs[:23] + "..." }`
abbrev pub clip : Text → Text
clip s = if ltb 23 (length s) then take 23 s ++ codes "..." else s

unfoldable pub mask_user_id : Text → Exec Text
unfolding blot
mask_user_id id = do
  s₂ ← blot 2 id
  s₃ ← blot 3 s₂
  s₄ ← blot 4 s₃
  s₅ ← blot 5 s₄
  s₆ ← blot 6 s₅
  s₇ ← blot 7 s₆
  s₈ ← blot 8 s₇
  ret (clip s₈)
