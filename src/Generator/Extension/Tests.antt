-- ===== src/Generator/Extension/Tests.antt =====
-- A password of the extension's generator.
use maspassword.Base.{ℕ, ◌≤◌, ◌<◌, ◌≡◌, refl, true, false, List, [], ◌∷◌, codes, length, has, All}
use maspassword.Generator.{done, accept}
use maspassword.Generator.Extension.{SetOptions, clamp, pool_of, draw, extension_password}
use maspassword.Generator.Extension.Sound.{extension_password_sound}

abbrev nothing_selected : SetOptions
nothing_selected = record {
  length = 3;
  lower = false;
  upper = false;
  digits = false;
  symbols = false;
}

abbrev drawn : List ℕ
drawn = 0 ∷ 27 ∷ 25 ∷ 7 ∷ []

password_bz : extension_password nothing_selected drawn ≡ done (codes "abz") (7 ∷ [])
unfolding extension_password draw pool_of accept
password_bz = refl

extension_password_sound_example :
    (length (codes "abz") ≡ clamp 3)
    × All (λ c. has c (pool_of nothing_selected) ≡ true) (codes "abz")
    × (0 < length (pool_of nothing_selected))
    × (1 ≤ length (codes "abz"))
    × (length (codes "abz") ≤ 128)
extension_password_sound_example = extension_password_sound nothing_selected drawn password_bz
