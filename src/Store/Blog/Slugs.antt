-- ===== src/Store/Blog/Slugs.antt =====
-- The ids and slugs of blog posts under calls of `UpsertBlogPost` and `DeleteBlogPost`.
use mlops.Base.{
  ◌≤◌, ◌≡◌, refl, String, Bool, false, List, [], ◌∷◌, ◌==◌, inl, inr, Bool-cases, Option-cases,
  eq_iff, count, any, arith,
}
use mlops.Base.First.{
  find_first, update_first, count-eq_zero, count-update_first-le, count-remove_first-le,
}
use mlops.Api.Value.{Time}
use mlops.Api.Project.{BlogPost, UpsertBlogPostRequest}
use mlops.Store.{State, Clock, Outcome-cases, record_event, id}
use mlops.Store.Blog.{
  validate_blog, is_post, rewrite_post, new_post, takes_slug, upsert_blog_post, delete_blog_post,
}

abbrev pub has_slug : String → BlogPost → Bool
has_slug k post = post.slug == k

-- No two posts share an id, and no two a slug.
abbrev pub PostsDiffer : List BlogPost → Type 0
PostsDiffer posts =
    ((k : String) → count (is_post k) posts ≤ 1) × ((k : String) → count (has_slug k) posts ≤ 1)

free_slug :
    (wanted post_id : String) (posts : List BlogPost)
    → count (is_post post_id) posts ≡ 0
    → any (takes_slug wanted post_id) posts ≡ false
    → count (has_slug wanted) posts ≡ 0
free_slug wanted post_id [] none_such free = refl
free_slug wanted post_id (x ∷ xs) none_such free = ground (arith, free_slug wanted post_id xs)

-- After the update of the only post with an id, a slug that no other post takes is there once.
count_rewritten :
    (now : Time) (req : UpsertBlogPostRequest) (post_id : String) (posts : List BlogPost)
    → count (is_post post_id) posts ≤ 1
    → any (takes_slug req.slug post_id) posts ≡ false
    → count (has_slug req.slug) (update_first (is_post post_id) (rewrite_post now req) posts) ≤ 1
unfolding rewrite_post
count_rewritten now req post_id [] once free = omega arith
count_rewritten now req post_id (x ∷ xs) once free =
    ground (arith, free_slug req.slug post_id xs, count_rewritten now req post_id xs)

rewritten-PostsDiffer :
    (now : Time) (req : UpsertBlogPostRequest) (post_id : String) (posts : List BlogPost)
    → any (takes_slug req.slug post_id) posts ≡ false
    → PostsDiffer posts
    → PostsDiffer (update_first (is_post post_id) (rewrite_post now req) posts)
unfolding rewrite_post
rewritten-PostsDiffer now req post_id posts free (ids, slugs) = (
  λ k. omega (
    arith,
    ids k,
    count-update_first-le (is_post post_id) (is_post k) (rewrite_post now req) (λ x a b. b) posts,
  ),
  λ k. elim (Bool-cases (req.slug == k)) [
    | inl e ↦
        rw (← (eq_iff req.slug k).0 e) (count_rewritten now req post_id posts (ids post_id) free)
    | inr e ↦ omega (
      arith,
      slugs k,
      count-update_first-le (is_post post_id) (has_slug k) (rewrite_post now req) (λ x a b. cc)
          posts,
    )
  ],
)

upsert-PostsDiffer :
    (to_lower : String → String) (clock : Clock) (post_id : String) (raw : UpsertBlogPostRequest)
    (actor : String) (s : State)
    → count (is_post (id "blog" (clock 1))) s.blog_posts ≡ 0
    → PostsDiffer s.blog_posts
    → PostsDiffer (upsert_blog_post to_lower clock post_id raw actor s).0.blog_posts
unfolding upsert_blog_post record_event
upsert-PostsDiffer to_lower clock post_id raw actor s fresh h =
    elim (Outcome-cases (validate_blog to_lower raw)) [
      | inl (e, p) ↦ rw (p, upsert_blog_post) h
      | inr (req, p) ↦ elim (Bool-cases (any (takes_slug req.slug post_id) s.blog_posts)) [
        | inl q ↦ rw (p, upsert_blog_post, q) h
        | inr q ↦ elim (Option-cases (find_first (is_post post_id) s.blog_posts)) [
          | inr (found, f) ↦
              rw (p, upsert_blog_post, q, f)
                (rewritten-PostsDiffer (clock 0) req post_id s.blog_posts q h)
          | inl f ↦
              let free =
                free_slug req.slug post_id s.blog_posts
                  (count-eq_zero (is_post post_id) s.blog_posts f) q in
              rw (p, upsert_blog_post, q, f)
                (
                  λ k. unfold new_post in ground (arith, eq_iff (id "blog" (clock 1)) k, h.0 k),
                  λ k. unfold new_post in ground (arith, eq_iff req.slug k, h.1 k),
                )
        ]
      ]
    ]

-- Where the id that a new post would take is free, `UpsertBlogPost` leaves no two posts with one id
-- or with one slug, whether it makes a post or changes one; neither does `DeleteBlogPost`.
pub upsert_blog_post-PostsDiffer :
    (to_lower : String → String) (clock : Clock) (post_id : String) (raw : UpsertBlogPostRequest)
    (actor : String) (s : State)
    → count (is_post (id "blog" (clock 1))) s.blog_posts ≡ 0
    → PostsDiffer s.blog_posts
    → PostsDiffer (upsert_blog_post to_lower clock post_id raw actor s).0.blog_posts
      × PostsDiffer (delete_blog_post clock post_id actor s).0.blog_posts
unfolding delete_blog_post record_event
upsert_blog_post-PostsDiffer to_lower clock post_id raw actor s fresh h = (
  upsert-PostsDiffer to_lower clock post_id raw actor s fresh h,
  elim (Option-cases (find_first (is_post post_id) s.blog_posts)) [
    | inl f ↦ rw (f, delete_blog_post) h
    | inr (found, f) ↦
        rw (f, delete_blog_post)
          (
            λ k.
                omega
                  (arith, h.0 k, count-remove_first-le (is_post post_id) (is_post k) s.blog_posts),
            λ k.
                omega
                  (arith, h.1 k, count-remove_first-le (is_post post_id) (has_slug k) s.blog_posts),
          )
  ],
)
