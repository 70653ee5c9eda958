-- ===== src/Http/Handlers/Posts.antt =====
-- go/internal/httpapi/server.go: the handlers of blog posts.
use mlops.Base.{String, Bool, List, map, filter, ◌==◌, if◌then◌else◌}
use mlops.Api.Project.{BlogPost, UpsertBlogPostRequest}
use mlops.Store.{State, refused, returned}
use mlops.Store.Blog.{blog_post, upsert_blog_post, delete_blog_post}
use mlops.Http.Handlers.{
  Request, Env, Body, text_of, Reply, problem, json, actor, answer, answer_deleted, decode,
}

abbrev pub is_published : BlogPost → Bool
is_published post = post.status == "published"

-- The post as a listing shows it.
abbrev pub without_content : BlogPost → BlogPost
without_content post = record post { content = "" }

-- `blogPosts`
unfoldable handle_blog_posts : State → Reply (List BlogPost)
handle_blog_posts s = json 200 (map without_content (filter is_published s.blog_posts))

-- `blogPost`
unfoldable handle_blog_post : String → State → Reply BlogPost
handle_blog_post slug s = elim (blog_post slug s) [
  | refused _ ↦ problem 404 "not_found" (text_of "blog post not found")
  | returned post ↦
      if is_published post
      then json 200 post
      else problem 404 "not_found" (text_of "blog post not found")
]

-- `adminBlogPosts`
unfoldable handle_admin_blog_posts : State → Reply (List BlogPost)
handle_admin_blog_posts s = json 200 s.blog_posts

-- `to_lower` is `strings.ToLower`.
module _ (env : Env) (request : Request) (to_lower : String → String) where
  -- `createBlogPost`
  unfoldable handle_create_blog_post : Body UpsertBlogPostRequest → State → State × Reply BlogPost
  handle_create_blog_post body s =
      decode body s
        λ req. answer env 201 (upsert_blog_post to_lower env.clock "" req (actor request) s)

  -- `updateBlogPost`
  unfoldable handle_update_blog_post :
      String → Body UpsertBlogPostRequest → State → State × Reply BlogPost
  handle_update_blog_post post_id body s =
      decode body s
        λ req. answer env 200 (upsert_blog_post to_lower env.clock post_id req (actor request) s)

module _ (env : Env) (request : Request) where
  -- `deleteBlogPost`
  unfoldable handle_delete_blog_post : String → State → State × Reply (Unit {0})
  handle_delete_blog_post post_id s =
      answer_deleted env (delete_blog_post env.clock post_id (actor request) s)
