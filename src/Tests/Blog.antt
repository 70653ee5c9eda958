-- ===== src/Tests/Blog.antt =====
-- Two posts, of which the second wants the slug of the first.
use Prim.Native.String.{◌++◌}
use mlops.Base.{◌≡◌, refl, ◌+◌, arith, String, [], ◌∷◌, map, count}
use mlops.Base.Decimal.{decimal}
use mlops.Base.Slug.{slug}
use mlops.Base.Text.{trim_space, byte_length}
use mlops.Api.Project.{UpsertBlogPostRequest}
use mlops.Store.{State, zero_state, Clock, id, record_event, refused, conflict}
use mlops.Store.Access.{unique}
use mlops.Store.Blog.{
  normalise_blog, validate_blog, blog_post, rewrite_post, new_post, is_post, upsert_blog_post,
  delete_blog_post,
}
use mlops.Store.Blog.Slugs.{PostsDiffer, upsert_blog_post-PostsDiffer}

abbrev early : Clock
early n = 10 + n

abbrev late : Clock
late n = 90 + n

abbrev thirty : String
thirty = "a text of thirty characters.. "

abbrev request : String → UpsertBlogPostRequest
request given = record {
  slug = given;
  title = "five tests";
  summary = thirty;
  content = thirty ++ thirty ++ thirty ++ thirty;
  author = "";
  tags = "ops" ∷ "ops" ∷ [];
  status = "published";
}

blog_code : Unit {0}
unfolding upsert_blog_post delete_blog_post blog_post validate_blog normalise_blog rewrite_post
    new_post record_event id decimal slug trim_space byte_length unique
blog_code = tt

abbrev one_post : State
one_post = (upsert_blog_post (λ s. s) early "" (request "") "ann" zero_state).0

one_slug :
    map {B = String × String} (λ p. (p.id, p.slug)) one_post.blog_posts
    ≡ ("blog-11", "five-tests") ∷ []
unfolding blog_code
one_slug = refl

taken :
    (upsert_blog_post (λ s. s) late "" (request " five tests! ") "ann" one_post).1
    ≡ refused conflict
unfolding blog_code
taken = refl

fresh : count (is_post (id "blog" (late 1))) one_post.blog_posts ≡ 0
unfolding blog_code
fresh = refl

one-PostsDiffer : PostsDiffer one_post.blog_posts
unfolding blog_code
one-PostsDiffer = ((λ k. ground arith), (λ k. ground arith))

upsert_blog_post-PostsDiffer_example :
    PostsDiffer
      (upsert_blog_post (λ s. s) late "blog-11" (request "other") "ann" one_post).0.blog_posts
    × PostsDiffer (delete_blog_post late "blog-11" "ann" one_post).0.blog_posts
upsert_blog_post-PostsDiffer_example =
    upsert_blog_post-PostsDiffer (λ s. s) late "blog-11" (request "other") "ann" one_post fresh
      one-PostsDiffer
