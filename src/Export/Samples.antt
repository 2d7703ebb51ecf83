-- ===== src/Export/Samples.antt =====
-- Fenced blocks (src/nb_export.go): tests, and a theorem at one of them.
use collectif.Common.{◌≡◌, ◌≢◌, refl, ◌++◌}
use collectif.Text.{codes}
use collectif.Export.Fences.{fence_of, fenced_block, fence_of-absent}

three : fenced_block (codes "ls") (codes "sh") ≡ codes "```sh\nls\n```"
unfolding fenced_block
three = refl

four : fence_of (codes "a ``` b") ≡ codes "````"
unfolding fence_of
four = refl

fence_of-absent_example : codes "a ``` b" ≢ codes "a " ++ (fence_of (codes "a ``` b") ++ codes " b")
fence_of-absent_example = fence_of-absent (codes "a ``` b") (codes "a ") (codes " b")
